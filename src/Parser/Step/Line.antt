-- ===== src/Parser/Step/Line.antt =====
-- The request line: method, URI with its parameters, version. An `int` is its 32-bit pattern.
use waspp.Base.{ℕ, ◌+◌, ◌-◌, ◌*◌, ◌%◌, ◌^◌, [], ◌∷◌, ◌++◌, ◌==◌, if◌then◌else◌}
use waspp.Request.{Request}
use waspp.Parser.Chars.{is_token, is_ctl, is_digit}
use waspp.Parser.Step.States.{
  indeterminate, is_false, method_start, method, uri, param_name_start, param_name, param_value,
  http_version_h, http_version_slash, http_version_major_start, http_version_major,
  http_version_minor_start, http_version_minor, expecting_newline_1, Outcome, goes_on, breaks,
  push_name, push_value, new_entry, push_uri,
}

unfoldable pub step_method_start : ℕ → Request → Outcome
step_method_start c req =
    if is_token c
    then breaks indeterminate method (record req { method = req.method ++ c ∷ [] })
    else breaks is_false method_start req

unfoldable pub step_method : ℕ → Request → Outcome
step_method c req =
    if c == b' '
    then breaks indeterminate uri req
    else if is_token c
    then goes_on (record req { method = req.method ++ c ∷ [] })
    else breaks is_false method req

unfoldable pub step_uri : ℕ → Request → Outcome
step_uri c req =
    if c == b'?'
    then breaks indeterminate param_name_start (push_uri req c)
    else if c == b' '
    then breaks indeterminate http_version_h req
    else if is_ctl c
    then breaks is_false uri req
    else goes_on (push_uri req c)

unfoldable pub step_param_name_start : ℕ → Request → Outcome
step_param_name_start c req =
    if c == b' '
    then breaks indeterminate http_version_h req
    else if is_token c
    then breaks indeterminate param_name
        (record (push_uri req c) { params = new_entry req.params c })
    else breaks is_false param_name_start req

unfoldable pub step_param_name : ℕ → Request → Outcome
step_param_name c req =
    if c == b' '
    then breaks indeterminate http_version_h req
    else if c == b'='
    then breaks indeterminate param_value (push_uri req c)
    else if is_token c
    then goes_on (record (push_uri req c) { params = push_name req.params c })
    else breaks is_false param_name req

unfoldable pub step_param_value : ℕ → Request → Outcome
step_param_value c req =
    if c == b' '
    then breaks indeterminate http_version_h req
    else if c == b'&'
    then breaks indeterminate param_name_start (push_uri req c)
    else if is_token c
    then goes_on (record (push_uri req c) { params = push_value req.params c })
    else breaks is_false param_value req

unfoldable pub step_http_version_slash : ℕ → Request → Outcome
step_http_version_slash c req =
    if c == b'/'
    then breaks indeterminate http_version_major_start
        (record req { http_version_major = 0; http_version_minor = 0 })
    else breaks is_false http_version_slash req

-- `v * 10 + c - '0'`
abbrev pub add_digit : ℕ → ℕ → ℕ
add_digit v c = (v * 10 + (c - 48)) % 2 ^ 32

abbrev major_digit : Request → ℕ → Request
major_digit req c = record req { http_version_major = add_digit req.http_version_major c }

abbrev minor_digit : Request → ℕ → Request
minor_digit req c = record req { http_version_minor = add_digit req.http_version_minor c }

unfoldable pub step_major_start : ℕ → Request → Outcome
step_major_start c req =
    if is_digit c
    then breaks indeterminate http_version_major (major_digit req c)
    else breaks is_false http_version_major_start req

unfoldable pub step_major : ℕ → Request → Outcome
step_major c req =
    if c == b'.'
    then breaks indeterminate http_version_minor_start req
    else if is_digit c
    then breaks indeterminate http_version_major (major_digit req c)
    else breaks is_false http_version_major req

unfoldable pub step_minor_start : ℕ → Request → Outcome
step_minor_start c req =
    if is_digit c
    then breaks indeterminate http_version_minor (minor_digit req c)
    else breaks is_false http_version_minor_start req

unfoldable pub step_minor : ℕ → Request → Outcome
step_minor c req =
    if c == b'\r'
    then breaks indeterminate expecting_newline_1 req
    else if is_digit c
    then breaks indeterminate http_version_minor (minor_digit req c)
    else breaks is_false http_version_minor req
