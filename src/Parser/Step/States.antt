-- ===== src/Parser/Step/States.antt =====
-- The parser's states and results, and what the body of a `case` does.
use waspp.Base.{ℕ, List, [], ◌∷◌, ◌++◌, ◌==◌, if◌then◌else◌}
use waspp.Request.{Request, NameValue}

-- `boost::tribool`
pub data Tribool : Type 0 where
  is_true is_false indeterminate : Tribool

-- `request_parser::state`
pub data State : Type 0 where
  method_start method uri param_name_start param_name param_value_start param_value : State
  http_version_h http_version_t_1 http_version_t_2 http_version_p http_version_slash : State
  http_version_major_start http_version_major http_version_minor_start http_version_minor : State
  expecting_newline_1 header_line_start header_lws header_name space_before_header_value : State
  header_value expecting_newline_2 expecting_newline_3 content_start content : State

-- The inner `do ... while` goes on with the next byte, or `break` with `result` and `state_`.
pub data Outcome : Type 0 where
  goes_on : Request → Outcome
  breaks : Tribool → State → Request → Outcome

-- `v.back().name.push_back(c)`; the vector is never empty there.
unfoldable pub push_name : List NameValue → ℕ → List NameValue
push_name [] c = []
push_name (x ∷ []) c = record x { name = x.name ++ c ∷ [] } ∷ []
push_name (x ∷ y ∷ ys) c = x ∷ push_name (y ∷ ys) c

-- `v.back().value.push_back(c)`
unfoldable pub push_value : List NameValue → ℕ → List NameValue
push_value [] c = []
push_value (x ∷ []) c = record x { value = x.value ++ c ∷ [] } ∷ []
push_value (x ∷ y ∷ ys) c = x ∷ push_value (y ∷ ys) c

-- `v.push_back(name_value()); v.back().name.push_back(c);`
abbrev pub new_entry : List NameValue → ℕ → List NameValue
new_entry xs c = xs ++ record { name = c ∷ []; value = [] } ∷ []

-- `req.uri.push_back(c)`
abbrev pub push_uri : Request → ℕ → Request
push_uri req c = record req { uri = req.uri ++ c ∷ [] }

-- A case that takes one given byte.
unfoldable pub step_expect : ℕ → State → State → ℕ → Request → Outcome
step_expect wanted here next c req =
    if c == wanted then breaks indeterminate next req else breaks is_false here req
