-- ===== src/Parser/Sound.antt =====
-- What the parser guarantees of a request: an invariant for each state, kept by every byte, and so
-- by every input.
pub mod Defs
mod Line
mod Headers
pub mod Content
use waspp.Base.{
  ℕ, ◌+◌, ◌%◌, ◌^◌, ◌≡◌, refl, sym, ap, ◌∙◌, ◌⊎◌, inl, inr, Bool, true, false, [], ◌∷◌, ◌++◌, List,
  Bytes, length, length-append, equal, equal_iff, codes, is_empty, All, arith, some, Option, none,
}
use waspp.Request.{Request, NameValue, header, lookup, lookup_again, empty_request}
use waspp.Strtol.{strtol_int}
use waspp.Parser.Chars.{is_token, is_ctl}
use waspp.Parser.Step.{
  Tribool, is_true, is_false, indeterminate, State, method_start, method, uri, param_name_start,
  param_name, param_value_start, param_value, http_version_h, http_version_t_1, http_version_t_2,
  http_version_p, http_version_slash, http_version_major_start, http_version_major,
  http_version_minor_start, http_version_minor, expecting_newline_1, header_line_start, header_lws,
  header_name, space_before_header_value, header_value, expecting_newline_2, expecting_newline_3,
  content_start, content, Outcome, goes_on, breaks, step, push_name, push_value, step_expect,
  step_method_start, step_method, step_uri, step_param_name_start, step_param_name,
  step_param_value, step_http_version_slash, step_major_start, step_major, step_minor_start,
  step_minor, step_header_line_start, step_header_lws, step_header_name, step_header_value,
  step_expecting_newline_3, start_content, step_content_start, step_content, take_content,
  set_content_length, push_content,
}
use waspp.Parser.Clean.{
  IsClean, IsToken, IsText, IsHeader, IsParam, IsToken-push, IsText-push, is_token-is_ctl,
  IsHeader-new, IsParam-new, IsHeader-push_name, IsHeader-push_value, IsParam-push_name,
  IsParam-push_value, IsHeader-lookup, is_empty-push_name, is_empty-push_value, is_empty-concat,
  empty_request-IsClean,
}
use waspp.Parser.Run.{run, parse-run, Outcome-cases}
use waspp.Parser.{Parse, parse}
use waspp.Parser.Sound.Defs.{declared, HasBack, Counted, Inv, IsComplete, IsAccepted, Kept, KeptBy}
use waspp.Parser.Sound.Line.{
  step_method_start-Inv, step_method-Inv, step_uri-Inv, step_param_name_start-Inv,
  step_param_name-Inv, step_param_value-Inv,
}
use waspp.Parser.Sound.Headers.{
  step_header_line_start-Inv, step_header_lws-Inv, step_header_name-Inv, step_header_value-Inv,
}
use waspp.Parser.Sound.Content.{
  step_expecting_newline_3-Inv, step_content_start-Inv, step_content-Inv, set_content_length_lem,
}

-- Every byte keeps the invariant of its state, and an accepted request is complete.
step-Inv : (s : State) (c : ℕ) (req : Request) → Inv s req → KeptBy s (step s c req)
unfolding step step_expect
step-Inv method_start c req v = step_method_start-Inv c req v
step-Inv method c req v = step_method-Inv c req v
step-Inv uri c req v = step_uri-Inv c req v
step-Inv param_name_start c req v = step_param_name_start-Inv c req v
step-Inv param_name c req v = step_param_name-Inv c req v
step-Inv param_value c req v = step_param_value-Inv c req v
step-Inv http_version_slash c req v = unfold step_http_version_slash in ground arith
step-Inv http_version_major_start c req v = unfold step_major_start in ground arith
step-Inv http_version_major c req v = unfold step_major in ground arith
step-Inv http_version_minor_start c req v = unfold step_minor_start in ground arith
step-Inv http_version_minor c req v = unfold step_minor in ground arith
step-Inv header_line_start c req v = step_header_line_start-Inv c req v
step-Inv header_lws c req v = step_header_lws-Inv c req v
step-Inv header_name c req v = step_header_name-Inv c req v
step-Inv header_value c req v = step_header_value-Inv c req v
step-Inv expecting_newline_3 c req v = step_expecting_newline_3-Inv c req v
step-Inv content_start c req v = step_content_start-Inv c req v
step-Inv content c req v = step_content-Inv c req v
step-Inv _ c req v = ground arith

abbrev KeptIn : Parse → Type 0
KeptIn p = Kept p.result p.state p.req

run-Kept : (input : Bytes) (s : State) (req : Request) → Inv s req → KeptIn (run s req input)
unfolding run
run-Kept [] s req v = v
run-Kept (c ∷ cs) s req v = elim (Outcome-cases (step s c req)) [
  | inl (r, e) ↦ rw (e, run) (run-Kept cs s r (rw e at (step-Inv s c req v)))
  | inr (is_true, s', r, e) ↦ rw (e, run) (rw e at (step-Inv s c req v))
  | inr (is_false, s', r, e) ↦ rw (e, run) (rw e at (step-Inv s c req v))
  | inr (indeterminate, s', r, e) ↦ rw (e, run) (run-Kept cs s' r (rw e at (step-Inv s c req v)))
]

pub initial-Inv : Inv method_start empty_request
initial-Inv = record { clean = empty_request-IsClean; has_back = tt; counted = refl }

-- From any state whose invariant holds, on any input, the parser ends in a state whose invariant
-- holds, or rejects a request with clean fields, or accepts a clean request that is a GET with no
-- body, or a POST whose body has the declared length up to the 32-bit wrap of the counter.
pub parse-Kept :
    (s : State) (req : Request) (input : Bytes)
    → Inv s req
    → Kept (parse s req input).result (parse s req input).state (parse s req input).req
parse-Kept s req input v = rw (parse-run s req input) (run-Kept input s req v)
