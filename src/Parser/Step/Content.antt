-- ===== src/Parser/Step/Content.antt =====
-- The end of the header block, and the body. `content_length` is the 32-bit pattern of an `int`.
use waspp.Base.{
  ℕ, ◌+◌, ◌-◌, ◌%◌, ◌^◌, not, ◌&&◌, ◌∷◌, [], ◌++◌, ◌==◌, if◌then◌else◌, codes, equal, is_empty,
}
use waspp.Request.{Request, header}
use waspp.Strtol.{strtol_int}
use waspp.Parser.Chars.{is_token}
use waspp.Parser.Step.States.{
  is_true, is_false, indeterminate, expecting_newline_3, content_start, content, State, Outcome,
  breaks,
}

-- `req.content_length = strtol(req.header("Content-Length").c_str(), nullptr, 0);`
unfoldable pub set_content_length : Request → Request
set_content_length req =
    let (value, req') = header req (codes "Content-Length") in
    record req' { content_length = strtol_int value }

-- `"POST"` at the newline.
unfoldable pub start_content : Request → Outcome
start_content req =
    let (value, req') = header req (codes "Content-Length") in
    if is_empty value
    then breaks is_false expecting_newline_3 req'
    else breaks indeterminate content_start (set_content_length req')

unfoldable pub step_expecting_newline_3 : ℕ → Request → Outcome
step_expecting_newline_3 c req =
    if equal req.method (codes "GET") && (c == b'\n')
    then breaks is_true expecting_newline_3 req
    else if equal req.method (codes "POST") && (c == b'\n')
    then start_content req
    else breaks is_false expecting_newline_3 req

-- `--req.content_length; req.content.push_back(input);`
abbrev pub push_content : Request → ℕ → Request
push_content req c = record req {
  content_length = (req.content_length + (2 ^ 32 - 1)) % 2 ^ 32;
  content = req.content ++ c ∷ [];
}

-- One byte of the body: the request is complete when the count reaches zero. `here` is the state in
-- which it stays then, `content` the next one otherwise.
unfoldable pub take_content : State → ℕ → Request → Outcome
take_content here c req =
    let req' = push_content req c in
    if req'.content_length == 0
    then breaks is_true here (set_content_length req')
    else breaks indeterminate content req'

unfoldable pub step_content_start : ℕ → Request → Outcome
step_content_start c req =
    if not (is_empty req.content)
    then breaks is_false content_start req
    else if is_token c
    then take_content content_start c req
    else breaks is_false content_start req

unfoldable pub step_content : ℕ → Request → Outcome
step_content c req = take_content content c req
