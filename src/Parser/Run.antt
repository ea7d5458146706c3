-- ===== src/Parser/Run.antt =====
-- The parser as a machine that takes one byte after another, with no inner loop, no outer loop and
-- no fuel, and what follows: input may arrive in pieces.
use waspp.Base.{
  ℕ, zero, suc, ◌≤◌, ◌≡◌, refl, sym, ◌⊎◌, inl, inr, ◌∙◌, [], ◌∷◌, ◌++◌, Bytes, length, arith,
}
use waspp.Request.{Request}
use waspp.Parser.Step.{
  Tribool, is_true, is_false, indeterminate, State, Outcome, goes_on, breaks, step,
}
use waspp.Parser.{Parse, do_while, unless_decided, parse_loop, parse}

unfoldable pub run : State → Request → Bytes → Parse
run s req [] = record { result = indeterminate; state = s; req = req; rest = [] }
run s req (c ∷ cs) = elim (step s c req) [
  | goes_on req' ↦ run s req' cs
  | breaks t s' req' ↦ elim t [
    | is_true ↦ record { result = is_true; state = s'; req = req'; rest = cs }
    | is_false ↦ record { result = is_false; state = s'; req = req'; rest = cs }
    | indeterminate ↦ run s' req' cs
  ]
]

pub Tribool-cases : (t : Tribool) → (t ≡ is_true) ⊎ (t ≡ is_false) ⊎ (t ≡ indeterminate)
Tribool-cases is_true = inl refl
Tribool-cases is_false = inr (inl refl)
Tribool-cases indeterminate = inr (inr refl)

pub Outcome-cases :
    (o : Outcome)
    → ((r : Request) × (o ≡ goes_on r))
      ⊎ ((t : Tribool) × (s : State) × (r : Request) × (o ≡ breaks t s r))
Outcome-cases (goes_on r) = inl (r, refl)
Outcome-cases (breaks t s r) = inr (t, s, r, refl)

-- One round of the outer loop is some steps of the machine.
run-do_while :
    (cs : Bytes) (s : State) (req : Request) (c : ℕ)
    → run s req (c ∷ cs) ≡ unless_decided (do_while s req c cs) run
unfolding run do_while
run-do_while [] s req c = elim (Outcome-cases (step s c req)) [
  | inl (r, e) ↦ rw (e, run, do_while)
  | inr (is_true, s', r, e) ↦ rw (e, run, do_while)
  | inr (is_false, s', r, e) ↦ rw (e, run, do_while)
  | inr (indeterminate, s', r, e) ↦ rw (e, run, do_while)
]
run-do_while (d ∷ cs) s req c = elim (Outcome-cases (step s c req)) [
  | inl (r, e) ↦ rw (e, run, do_while) (run-do_while cs s r d)
  | inr (is_true, s', r, e) ↦ rw (e, run, do_while)
  | inr (is_false, s', r, e) ↦ rw (e, run, do_while)
  | inr (indeterminate, s', r, e) ↦ rw (e, run, do_while)
]

do_while-consumes :
    (cs : Bytes) (s : State) (req : Request) (c : ℕ) → length (do_while s req c cs).rest ≤ length cs
unfolding do_while
do_while-consumes [] s req c = ground arith
do_while-consumes (d ∷ cs) s req c = elim (Outcome-cases (step s c req)) [
  | inl (r, e) ↦ rw (e, do_while) (omega (arith, do_while-consumes cs s r d))
  | inr (t, s', r, e) ↦ rw (e, do_while) (omega arith)
]

unless_decided_ext :
    (p : Parse) (f g : State → Request → Bytes → Parse)
    → f p.state p.req p.rest ≡ g p.state p.req p.rest
    → unless_decided p f ≡ unless_decided p g
unless_decided_ext p f g h = ground arith

parse_loop-run :
    (fuel : ℕ) (s : State) (req : Request) (input : Bytes)
    → length input ≤ fuel
    → parse_loop fuel s req input ≡ run s req input
unfolding parse_loop run
parse_loop-run fuel s req [] h = refl
parse_loop-run zero s req (c ∷ cs) h = absurd (omega arith)
parse_loop-run (suc fuel) s req (c ∷ cs) h =
    let p = do_while s req c cs in
    unless_decided_ext p (parse_loop fuel) run
      (parse_loop-run fuel p.state p.req p.rest (omega (arith, do_while-consumes cs s req c)))
    ∙ sym (run-do_while cs s req c)

-- The two loops of `parse` do what the machine does, on every input: no round is lost for want of
-- fuel, and no byte is read twice.
pub parse-run : (s : State) (req : Request) (input : Bytes) → parse s req input ≡ run s req input
unfolding parse
parse-run s req input = parse_loop-run (length input) s req input (omega arith)

-- What a parser in the state of `p` makes of more input, if it asked for more.
abbrev pub resume : Parse → Bytes → Parse
resume p ys = elim p.result [
  | is_true ↦ record p { rest = p.rest ++ ys }
  | is_false ↦ record p { rest = p.rest ++ ys }
  | indeterminate ↦ parse p.state p.req ys
]

run-append :
    (xs ys : Bytes) (s : State) (req : Request) → run s req (xs ++ ys) ≡ resume (run s req xs) ys
unfolding run
run-append [] ys s req = sym (parse-run s req ys)
run-append (c ∷ xs) ys s req = elim (Outcome-cases (step s c req)) [
  | inl (r, e) ↦ rw (e, run) (run-append xs ys s r)
  | inr (is_true, s', r, e) ↦ rw (e, run)
  | inr (is_false, s', r, e) ↦ rw (e, run)
  | inr (indeterminate, s', r, e) ↦ rw (e, run) (run-append xs ys s' r)
]

-- However the network cuts the input, resuming the parser on the second piece gives what one call
-- on the whole gives.
pub parse-append :
    (s : State) (req : Request) (xs ys : Bytes)
    → parse s req (xs ++ ys) ≡ resume (parse s req xs) ys
parse-append s req xs ys =
    rw (parse-run s req (xs ++ ys), parse-run s req xs) (run-append xs ys s req)
