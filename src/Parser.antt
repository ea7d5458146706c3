-- ===== src/Parser.antt =====
-- `request_parser::parse` of src/request_parser.hpp: the loops over the bytes. What one byte does in
-- a state is in Parser/Step.
pub mod Chars
pub mod Step
pub mod Run
pub mod Clean
pub mod Sound
pub mod Message
use waspp.Base.{ℕ, zero, suc, List, [], ◌∷◌, Bytes, length}
use waspp.Request.{Request}
use Step.{
  Tribool, is_true, is_false, indeterminate, State, method_start, Outcome, goes_on, breaks, step,
}

-- Where a run of the parser stands: the result, the state, the request, and the input not consumed.
pub record Parse : Type 0 where
  pub result : Tribool
  pub state : State
  pub req : Request
  pub rest : Bytes

-- `do { input = *begin++; ... } while (begin != end);` in one state: `c` is the next byte, and the
-- others stand behind it. A body that breaks leaves the loop. `result` is `indeterminate` until
-- then, since any other value has ended the outer loop. A state with no inner loop breaks on every
-- byte, so that its single pass is this loop too.
unfoldable pub do_while : State → Request → ℕ → Bytes → Parse
do_while s req c [] = elim (step s c req) [
  | goes_on req' ↦ record { result = indeterminate; state = s; req = req'; rest = [] }
  | breaks t s' req' ↦ record { result = t; state = s'; req = req'; rest = [] }
]
do_while s req c (d ∷ cs) = elim (step s c req) [
  | goes_on req' ↦ do_while s req' d cs
  | breaks t s' req' ↦ record { result = t; state = s'; req = req'; rest = d ∷ cs }
]

-- `if (result || !result) return boost::make_tuple(result, begin);`, and what the loop does
-- otherwise.
abbrev pub unless_decided : Parse → (State → Request → Bytes → Parse) → Parse
unless_decided p go = elim p.result [
  | is_true ↦ p
  | is_false ↦ p
  | indeterminate ↦ go p.state p.req p.rest
]

-- `while (begin != end) { switch (state_) ... }`. Each round consumes a byte, so that the length of
-- the input is enough fuel.
unfoldable pub parse_loop : ℕ → State → Request → Bytes → Parse
unfolding do_while
parse_loop fuel s req [] = record { result = indeterminate; state = s; req = req; rest = [] }
parse_loop zero s req (c ∷ cs) = record {
  result = indeterminate;
  state = s;
  req = req;
  rest = c ∷ cs;
}
parse_loop (suc fuel) s req (c ∷ cs) = unless_decided (do_while s req c cs) (parse_loop fuel)

-- `request_parser_.parse(request_, begin, end)`, the parser being in state `s`.
unfoldable pub parse : State → Request → Bytes → Parse
unfolding parse_loop
parse s req input = parse_loop (length input) s req input
