-- ===== src/Request.antt =====
-- src/request.hpp, src/request.cpp, src/name_value.hpp and src/multipart.hpp: the request, and the
-- look-up in its headers, cookies and parameters. A look-up returns a reference into the vector, and
-- appends an empty entry where there is none: here it returns the value and the new vector.
pub mod Lookup
use waspp.Base.{
  ℕ, ◌≡◌, Bool, ◌&&◌, List, [], ◌∷◌, ◌==◌, if◌then◌else◌, Bytes, codes, is_empty, get_elem?, Option,
  none, some,
}
unfoldable pub use Lookup.*

pub record MultipartHeader : Type 0 where
  pub disposition : Bytes
  pub name : Bytes
  pub filename : Bytes
  pub filetype : Bytes

pub record MultipartContent : Type 0 where
  pub name : Bytes
  pub filename : Bytes
  pub filetype : Bytes
  pub content : Bytes

-- An `int` is its 32-bit pattern.
pub record Request : Type 0 where
  pub remote_addr : Bytes
  pub remote_port : ℕ
  pub connection_option : ℕ
  pub method : Bytes
  pub uri : Bytes
  pub http_version_major : ℕ
  pub http_version_minor : ℕ
  pub headers : List NameValue
  pub content : Bytes
  pub content_length : ℕ
  pub cookies : List NameValue
  pub params : List NameValue
  pub rest_params : List Bytes
  pub uploads : List MultipartContent

-- `request()`: value-initialised.
abbrev pub empty_request : Request
empty_request = record {
  remote_addr = [];
  remote_port = 0;
  connection_option = 0;
  method = [];
  uri = [];
  http_version_major = 0;
  http_version_minor = 0;
  headers = [];
  content = [];
  content_length = 0;
  cookies = [];
  params = [];
  rest_params = [];
  uploads = [];
}

unfoldable pub header : Request → Bytes → Bytes × Request
header req name =
    let (value, headers') = lookup name req.headers in (value, record req { headers = headers' })

unfoldable pub cookie : Request → Bytes → Bytes × Request
cookie req name =
    let (value, cookies') = lookup name req.cookies in (value, record req { cookies = cookies' })

unfoldable pub param : Request → Bytes → Bytes × Request
param req name =
    let (value, params') = lookup name req.params in (value, record req { params = params' })

-- `s[0]`; the terminating zero of an empty string.
abbrev first_byte : Bytes → ℕ
first_byte [] = 0
first_byte (c ∷ cs) = c

unfoldable pub parse_connection_header : Request → Request
unfolding header
parse_connection_header req =
    let keep =
      if (req.http_version_major == 1) && (req.http_version_minor == 0) then b'c' else b'K' in
    let (value, req') = header req (codes "Connection") in
    record req' { connection_option = if is_empty value then keep else first_byte value }
