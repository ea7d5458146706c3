-- ===== src/Fields.antt =====
-- The second half of src/request_parser.cpp: `parse_params`, `parse_cookies` and `parse_content`,
-- which work on the request that `parse` has accepted.
pub mod Outcome
pub mod Params
pub mod Cookies
pub mod Content
pub mod Multipart
