-- ===== src/Handler.antt =====
-- src/request_handler.cpp: one request to one response.
pub mod Access
pub mod Validate
pub mod Length
pub mod Confined
use waspp.Base.{
  ℕ, Bool, true, false, not, ◌&&◌, ◌||◌, List, [], ◌∷◌, ◌++◌, ◌==◌, if◌then◌else◌, Bytes, codes,
  equal, find, length, is_empty, Option, none, some,
}
use waspp.Request.{Request, NameValue, header}
use waspp.Response.{Response, static_response}
use waspp.Response.Static.{ok, unauthorized, bad_request, not_found, internal_server_error}
use waspp.Response.Decimal.{to_string}
use waspp.MimeTypes.{extension_to_type, is_compressible}
use waspp.Config.{Config}
use waspp.Router.{Route, get_func, get_file}
use Access.{is_access_granted, is_access_denied}
use Validate.{percent_decode_and_validate}

-- What the function of a route does: it changes the request and the response, or throws.
pub data Handled : Type 0 where
  handled : Request → Response → Handled
  threw : Request → Handled

-- What the handler calls and this repository's request path does not define: the functions of the
-- routes, the file system, the compressor, and what comes of the search in
-- copies of an access list.
pub record Env : Type 0 where
  pub func : Route → Config → Request → Response → Handled
  pub files : Bytes → Option Bytes
  pub gzip : Bytes → Bytes
  pub find : List Bytes → Bytes → Bool

-- `request_uri.empty() || request_uri[0] != '/' || request_uri.find("..") != npos`
abbrev has_dots : Option ℕ → Bool
has_dots none = false
has_dots (some i) = true

unfoldable pub is_bad_path : Bytes → Bool
is_bad_path [] = true
is_bad_path (c ∷ cs) = not (c == b'/') || has_dots (find (c ∷ cs) (codes ".."))

abbrev add_header : Bytes → Bytes → Response → Response
add_header n v res = record res { headers = res.headers ++ record { name = n; value = v } ∷ [] }

-- The `Set-Cookie` headers.
unfoldable pub cookie_headers : List NameValue → List NameValue
cookie_headers [] = []
cookie_headers (x ∷ xs) =
    record {
      name = codes "Set-Cookie";
      value = x.name ++ (codes "=" ++ (x.value ++ codes "; path=/"));
    }
    ∷ cookie_headers xs

unfoldable pub compress : Env → Config → Request → Response → Request × Response
compress env cfg req res =
    let (encoding, req') = header req (codes "Accept-Encoding") in
    let packed = record (add_header (codes "Content-Encoding") (codes "gzip") res) {
      content = env.gzip res.content;
    } in
    if not cfg.compress
    then (req, res)
    else if equal encoding (codes "gzip, deflate") && is_compressible res.content_extension
    then (req', packed)
    else (req', res)

-- "Fill out the response to be sent to the client."
unfoldable pub fill_out : Env → Config → Request → Response → Request × Response
fill_out env cfg req res =
    let typed =
      add_header (codes "Keep-Alive") (codes "timeout=0, max=0")
        (add_header (codes "Content-Type") (extension_to_type res.content_extension) res) in
    let cookied = record typed { headers = typed.headers ++ cookie_headers typed.cookies } in
    let (req', packed) = compress env cfg req cookied in
    (
      req',
      record (add_header (codes "Content-Length") (to_string (length packed.content)) packed) {
        status = ok;
      },
    )

-- What follows the call of a route's function: its `catch` gives the 500 response.
unfoldable pub call_func : Env → Config → Handled → Request × Response
call_func env cfg (handled req res) = fill_out env cfg req res
call_func env cfg (threw req) = (req, static_response internal_server_error)

-- What follows the call of `get_file`.
unfoldable pub send_file : Env → Config → Request → Option Response → Request × Response
send_file env cfg req none = (req, static_response not_found)
send_file env cfg req (some res) = fill_out env cfg req res

unfoldable pub dispatch : Env → Config → Request → Response → Bytes → Request × Response
dispatch env cfg req res request_uri = elim (get_func request_uri) [
  | some route ↦ call_func env cfg (env.func route cfg req res)
  | none ↦ send_file env cfg req (get_file env.files cfg res request_uri)
]

unfoldable pub handle_request : Env → Config → Request → Response → Request × Response
handle_request env cfg req res =
    if not (is_access_granted env.find cfg req.remote_addr)
      || is_access_denied env.find cfg req.remote_addr
    then (req, static_response unauthorized)
    else elim (percent_decode_and_validate req.uri) [
      | none ↦ (req, static_response bad_request)
      | some request_uri ↦
          if is_bad_path request_uri
          then (req, static_response bad_request)
          else dispatch env cfg req res request_uri
    ]
