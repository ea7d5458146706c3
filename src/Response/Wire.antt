-- ===== src/Response/Wire.antt =====
-- What a response is on the wire.
use waspp.Base.{◌≡◌, refl, [], ◌∷◌, ◌++◌, List, Bytes, codes, length, append-nil, some, equal}
use waspp.Request.{NameValue, find_value}
use waspp.Parser.Message.Format.{format_headers}
use waspp.Response.Static.{
  Status, ok, created, accepted, no_content, multiple_choices, moved_permanently, moved_temporarily,
  not_modified, bad_request, unauthorized, forbidden, not_found, internal_server_error,
  not_implemented, bad_gateway, service_unavailable, status_code, status_line, static_content,
}
use waspp.Response.Decimal.{to_string, read_decimal, read_decimal-to_string}
use waspp.Response.{Response, to_buffers, headers_buffers, static_response}

-- The bytes of some buffers, one after another.
abbrev pub sent : List Bytes → Bytes
sent [] = []
sent (b ∷ bs) = b ++ sent bs

headers_buffers-format :
    (hs : List NameValue) (rest : List Bytes)
    → sent (headers_buffers hs ++ rest) ≡ format_headers hs (sent rest)
headers_buffers-format [] rest = refl
headers_buffers-format (h ∷ hs) rest = simp (headers_buffers-format hs rest)

-- The bytes sent are the status line, the header lines in the form that the request parser reads,
-- an empty line and the content.
to_buffers-format :
    (res : Response)
    → sent (to_buffers res)
      ≡ status_line res.status ++ format_headers res.headers (b'\r' ∷ b'\n' ∷ res.content)
unfolding to_buffers
to_buffers-format res = simp (headers_buffers-format res.headers, append-nil)

-- Every status line has its status code between the version and the reason.
status_line-status_code :
    (s : Status)
    → (reason : Bytes) × (status_line s
        ≡ codes "HTTP/1.1 " ++ (to_string (status_code s) ++ (b' ' ∷ (reason ++ codes "\r\n"))))
unfolding status_line status_code to_string
status_line-status_code ok = (codes "OK", refl)
status_line-status_code created = (codes "Created", refl)
status_line-status_code accepted = (codes "Accepted", refl)
status_line-status_code no_content = (codes "No Content", refl)
status_line-status_code multiple_choices = (codes "Multiple Choices", refl)
status_line-status_code moved_permanently = (codes "Moved Permanently", refl)
status_line-status_code moved_temporarily = (codes "Moved Temporarily", refl)
status_line-status_code not_modified = (codes "Not Modified", refl)
status_line-status_code bad_request = (codes "Bad Request", refl)
status_line-status_code unauthorized = (codes "Unauthorized", refl)
status_line-status_code forbidden = (codes "Forbidden", refl)
status_line-status_code not_found = (codes "Not Found", refl)
status_line-status_code internal_server_error = (codes "Internal Server Error", refl)
status_line-status_code not_implemented = (codes "Not Implemented", refl)
status_line-status_code bad_gateway = (codes "Bad Gateway", refl)
status_line-status_code service_unavailable = (codes "Service Unavailable", refl)

-- A `Content-Length` header gives the length of the content in decimal.
pub record HasLength (res : Response) : Type 0 where
  pub value : Bytes
  pub found : find_value (codes "Content-Length") res.headers ≡ some value
  pub counts : read_decimal value ≡ length res.content

-- Every static response announces the length of its page.
pub static_response-HasLength : (s : Status) → HasLength (static_response s)
unfolding static_response find_value equal
static_response-HasLength s = record {
  value = to_string (length (static_content s));
  found = refl;
  counts = read_decimal-to_string (length (static_content s));
}
