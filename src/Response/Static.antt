-- ===== src/Response/Static.antt =====
-- The status codes, status lines and static contents of src/response.cpp.
use waspp.Base.{ℕ, Bytes, [], ◌++◌, codes}

pub data Status : Type 0 where
  ok created accepted no_content multiple_choices moved_permanently moved_temporarily : Status
  not_modified bad_request unauthorized forbidden not_found internal_server_error : Status
  not_implemented bad_gateway service_unavailable : Status

unfoldable pub status_code : Status → ℕ
status_code ok = 200
status_code created = 201
status_code accepted = 202
status_code no_content = 204
status_code multiple_choices = 300
status_code moved_permanently = 301
status_code moved_temporarily = 302
status_code not_modified = 304
status_code bad_request = 400
status_code unauthorized = 401
status_code forbidden = 403
status_code not_found = 404
status_code internal_server_error = 500
status_code not_implemented = 501
status_code bad_gateway = 502
status_code service_unavailable = 503

-- `status_strings::to_buffer`
unfoldable pub status_line : Status → Bytes
status_line ok = codes "HTTP/1.1 200 OK\r\n"
status_line created = codes "HTTP/1.1 201 Created\r\n"
status_line accepted = codes "HTTP/1.1 202 Accepted\r\n"
status_line no_content = codes "HTTP/1.1 204 No Content\r\n"
status_line multiple_choices = codes "HTTP/1.1 300 Multiple Choices\r\n"
status_line moved_permanently = codes "HTTP/1.1 301 Moved Permanently\r\n"
status_line moved_temporarily = codes "HTTP/1.1 302 Moved Temporarily\r\n"
status_line not_modified = codes "HTTP/1.1 304 Not Modified\r\n"
status_line bad_request = codes "HTTP/1.1 400 Bad Request\r\n"
status_line unauthorized = codes "HTTP/1.1 401 Unauthorized\r\n"
status_line forbidden = codes "HTTP/1.1 403 Forbidden\r\n"
status_line not_found = codes "HTTP/1.1 404 Not Found\r\n"
status_line internal_server_error = codes "HTTP/1.1 500 Internal Server Error\r\n"
status_line not_implemented = codes "HTTP/1.1 501 Not Implemented\r\n"
status_line bad_gateway = codes "HTTP/1.1 502 Bad Gateway\r\n"
status_line service_unavailable = codes "HTTP/1.1 503 Service Unavailable\r\n"

-- The pages of `static_responses`, from their title and heading.
abbrev page : Bytes → Bytes → Bytes
page title heading =
    codes "<html><head><title>"
    ++ (title ++ (codes "</title></head><body><h1>" ++ (heading ++ codes "</h1></body></html>")))

-- `static_responses::to_string`
unfoldable pub static_content : Status → Bytes
static_content ok = []
static_content created = page (codes "Created") (codes "201 Created")
static_content accepted = page (codes "Accepted") (codes "202 Accepted")
static_content no_content = page (codes "No Content") (codes "204 Content")
static_content multiple_choices = page (codes "Multiple Choices") (codes "300 Multiple Choices")
static_content moved_permanently = page (codes "Moved Permanently") (codes "301 Moved Permanently")
static_content moved_temporarily = page (codes "Moved Temporarily") (codes "302 Moved Temporarily")
static_content not_modified = page (codes "Not Modified") (codes "304 Not Modified")
static_content bad_request = page (codes "Bad Request") (codes "400 Bad Request")
static_content unauthorized = page (codes "Unauthorized") (codes "401 Unauthorized")
static_content forbidden = page (codes "Forbidden") (codes "403 Forbidden")
static_content not_found = page (codes "Not Found") (codes "404 Not Found")
static_content internal_server_error =
    page (codes "Internal Server Error") (codes "500 Internal Server Error")
static_content not_implemented = page (codes "Not Implemented") (codes "501 Not Implemented")
static_content bad_gateway = page (codes "Bad Gateway") (codes "502 Bad Gateway")
static_content service_unavailable =
    page (codes "Service Unavailable") (codes "503 Service Unavailable")
