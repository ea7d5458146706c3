-- ===== src/Parser/Step/Headers.antt =====
-- The header lines, with continuation lines.
use waspp.Base.{ℕ, not, ◌&&◌, ◌||◌, ◌==◌, if◌then◌else◌, is_empty}
use waspp.Request.{Request}
use waspp.Parser.Chars.{is_token, is_ctl}
use waspp.Parser.Step.States.{
  indeterminate, is_false, header_line_start, header_lws, header_name, space_before_header_value,
  header_value, expecting_newline_2, expecting_newline_3, Outcome, goes_on, breaks, push_name,
  push_value, new_entry,
}

unfoldable pub step_header_line_start : ℕ → Request → Outcome
step_header_line_start c req =
    if c == b'\r'
    then breaks indeterminate expecting_newline_3 req
    else if not (is_empty req.headers) && ((c == b' ') || (c == b'\t'))
    then breaks indeterminate header_lws req
    else if is_token c
    then breaks indeterminate header_name (record req { headers = new_entry req.headers c })
    else breaks is_false header_line_start req

unfoldable pub step_header_lws : ℕ → Request → Outcome
step_header_lws c req =
    if c == b'\r'
    then breaks indeterminate expecting_newline_2 req
    else if (c == b' ') || (c == b'\t')
    then breaks indeterminate header_lws req
    else if is_ctl c
    then breaks is_false header_lws req
    else breaks indeterminate header_value (record req { headers = push_value req.headers c })

unfoldable pub step_header_name : ℕ → Request → Outcome
step_header_name c req =
    if c == b':'
    then breaks indeterminate space_before_header_value req
    else if is_token c
    then goes_on (record req { headers = push_name req.headers c })
    else breaks is_false header_name req

unfoldable pub step_header_value : ℕ → Request → Outcome
step_header_value c req =
    if c == b'\r'
    then breaks indeterminate expecting_newline_2 req
    else if is_ctl c
    then breaks is_false header_value req
    else goes_on (record req { headers = push_value req.headers c })
