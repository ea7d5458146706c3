-- ===== src/Parser/Step.antt =====
-- The `switch` of `request_parser::parse` (src/request_parser.hpp): what one byte does, with a
-- function for each case of more than a comparison. The cases of the header block are in
-- Step/Headers, those of the body in Step/Content.
mod States
mod Line
mod Headers
mod Content
use waspp.Base.{ℕ}
use waspp.Request.{Request}
unfoldable pub use States.*
unfoldable pub use Line.*
unfoldable pub use Headers.*
unfoldable pub use Content.*

-- `param_value_start` has no case: the parser never enters it, and `default` refuses.
unfoldable pub step : State → ℕ → Request → Outcome
step method_start c req = step_method_start c req
step method c req = step_method c req
step uri c req = step_uri c req
step param_name_start c req = step_param_name_start c req
step param_name c req = step_param_name c req
step param_value_start c req = breaks is_false param_value_start req
step param_value c req = step_param_value c req
step http_version_h c req = step_expect b'H' http_version_h http_version_t_1 c req
step http_version_t_1 c req = step_expect b'T' http_version_t_1 http_version_t_2 c req
step http_version_t_2 c req = step_expect b'T' http_version_t_2 http_version_p c req
step http_version_p c req = step_expect b'P' http_version_p http_version_slash c req
step http_version_slash c req = step_http_version_slash c req
step http_version_major_start c req = step_major_start c req
step http_version_major c req = step_major c req
step http_version_minor_start c req = step_minor_start c req
step http_version_minor c req = step_minor c req
step expecting_newline_1 c req = step_expect b'\n' expecting_newline_1 header_line_start c req
step header_line_start c req = step_header_line_start c req
step header_lws c req = step_header_lws c req
step header_name c req = step_header_name c req
step space_before_header_value c req = step_expect b' ' space_before_header_value header_value c req
step header_value c req = step_header_value c req
step expecting_newline_2 c req = step_expect b'\n' expecting_newline_2 header_line_start c req
step expecting_newline_3 c req = step_expecting_newline_3 c req
step content_start c req = step_content_start c req
step content c req = step_content c req
