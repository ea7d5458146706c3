-- ===== src/Response.antt =====
-- src/response.hpp and src/response.cpp.
pub mod Static
pub mod Cookies
pub mod Decimal
pub mod Wire
use waspp.Base.{ℕ, List, [], ◌∷◌, ◌++◌, if◌then◌else◌, Bytes, codes, equal, length}
use waspp.Request.{NameValue}
use Static.{Status, status_line, static_content}
use Decimal.{to_string}

pub record Response : Type 0 where
  pub status : Status
  pub headers : List NameValue
  pub cookies : List NameValue
  pub content : Bytes
  pub content_extension : Bytes

-- The update of the first entry of that name; with none, an entry is appended.
unfoldable pub set_entry : Bytes → Bytes → List NameValue → List NameValue
set_entry n v [] = record { name = n; value = v } ∷ []
set_entry n v (x ∷ xs) =
    if equal x.name n then record x { value = v } ∷ xs else x ∷ set_entry n v xs

unfoldable pub set_cookie : Response → Bytes → Bytes → Response
set_cookie res name value = record res { cookies = set_entry name value res.cookies }

unfoldable pub delete_cookie : Response → Bytes → Response
delete_cookie res name = set_cookie res name []

unfoldable pub redirect_to : Response → Bytes → Response
redirect_to res url = record res {
  headers = res.headers ++ record { name = codes "Refresh"; value = codes "0; url=" ++ url } ∷ [];
  content = codes " ";
  content_extension = codes "html";
}

-- The buffers of one header.
abbrev header_buffers : NameValue → List Bytes
header_buffers h = h.name ∷ codes ": " ∷ h.value ∷ codes "\r\n" ∷ []

abbrev headers_buffers : List NameValue → List Bytes
headers_buffers [] = []
headers_buffers (h ∷ hs) = header_buffers h ++ headers_buffers hs

-- What `boost::asio::async_write` sends, buffer after buffer.
unfoldable pub to_buffers : Response → List Bytes
to_buffers res =
    (status_line res.status ∷ headers_buffers res.headers) ++ (codes "\r\n" ∷ res.content ∷ [])

unfoldable pub static_response : Status → Response
static_response status = record {
  status = status;
  headers =
      record { name = codes "Content-Length"; value = to_string (length (static_content status)) }
      ∷ record { name = codes "Content-Type"; value = codes "text/html" }
      ∷ record { name = codes "Keep-Alive"; value = codes "timeout=0, max=0" }
      ∷ [];
  cookies = [];
  content = static_content status;
  content_extension = [];
}
