-- ===== src/Parser/Message/Headers.antt =====
-- The parser over the header lines of a message, with any text behind them.
use waspp.Base.{
  ℕ, ◌≡◌, refl, ◌∙◌, true, false, [], ◌∷◌, ◌++◌, List, Bytes, All, append_assoc, append-nil, arith,
}
use waspp.Request.{Request, NameValue}
use waspp.Parser.Chars.{is_token, is_ctl}
use waspp.Parser.Step.{
  indeterminate, header_line_start, header_name, space_before_header_value, header_value,
  expecting_newline_2, step, step_expect, step_header_line_start, step_header_name,
  step_header_value, goes_on, breaks,
}
use waspp.Parser.Clean.{IsToken, IsText}
use waspp.Parser.Run.{run}
use waspp.Parser.Message.Format.{HasToken, IsLine, format_headers}
use waspp.Parser.Message.Line.{run-goes_on, run-breaks, push_name-concat, push_value-concat}

-- The request with its last header so far.
abbrev last_header : Request → List NameValue → Bytes → Bytes → Request
last_header req xs n v = record req { headers = xs ++ record { name = n; value = v } ∷ [] }

step_name :
    (req : Request) (xs : List NameValue) (n : Bytes) (c : ℕ)
    → is_token c ≡ true
    → step header_name c (last_header req xs n []) ≡ goes_on (last_header req xs (n ++ c ∷ []) [])
unfolding step step_header_name is_token
step_name req xs n c h = ground (arith, push_name-concat xs (record { name = n; value = [] }) c)

step_value :
    (req : Request) (xs : List NameValue) (n v : Bytes) (c : ℕ)
    → is_ctl c ≡ false
    → step header_value c (last_header req xs n v) ≡ goes_on (last_header req xs n (v ++ c ∷ []))
unfolding step step_header_value
step_value req xs n v c h = ground (arith, push_value-concat xs (record { name = n; value = v }) c)

step_colon :
    (req : Request) → step header_name b':' req ≡ breaks indeterminate space_before_header_value req
unfolding step step_header_name
step_colon req = refl

step_cr :
    (req : Request) → step header_value b'\r' req ≡ breaks indeterminate expecting_newline_2 req
unfolding step step_header_value
step_cr req = refl

step_lf :
    (req : Request)
    → step expecting_newline_2 b'\n' req ≡ breaks indeterminate header_line_start req
unfolding step step_expect
step_lf req = refl

run-header_name :
    (m : Bytes) (req : Request) (xs : List NameValue) (n : Bytes) (rest : Bytes)
    → IsToken m
    → run header_name (last_header req xs n []) (m ++ (b':' ∷ rest))
      ≡ run space_before_header_value (last_header req xs (n ++ m) []) rest
run-header_name [] req xs n rest h = rw append-nil (run-breaks _ _ _ rest (step_colon _))
run-header_name (c ∷ m) req xs n rest h =
    run-goes_on _ _ c (m ++ (b':' ∷ rest)) (step_name req xs n c h.0)
    ∙ run-header_name m req xs (n ++ c ∷ []) rest h.1
    ∙ simp append_assoc

run-header_value :
    (m : Bytes) (req : Request) (xs : List NameValue) (n v : Bytes) (rest : Bytes)
    → IsText m
    → run header_value (last_header req xs n v) (m ++ (b'\r' ∷ b'\n' ∷ rest))
      ≡ run header_line_start (last_header req xs n (v ++ m)) rest
run-header_value [] req xs n v rest h =
    rw append-nil (run-breaks _ _ _ (b'\n' ∷ rest) (step_cr _) ∙ run-breaks _ _ _ rest (step_lf _))
run-header_value (c ∷ m) req xs n v rest h =
    run-goes_on _ _ c (m ++ (b'\r' ∷ b'\n' ∷ rest)) (step_value req xs n v c h.0)
    ∙ run-header_value m req xs n (v ++ c ∷ []) rest h.1
    ∙ simp append_assoc

step_first :
    (req : Request) (c : ℕ)
    → is_token c ≡ true
    → step header_line_start c req
      ≡ breaks indeterminate header_name (last_header req req.headers (c ∷ []) [])
unfolding step step_header_line_start is_token
step_first req c h = ground arith

step_space :
    (req : Request)
    → step space_before_header_value b' ' req ≡ breaks indeterminate header_value req
unfolding step step_expect
step_space req = refl

-- A header line, from the first byte of its name to its line feed.
run_line :
    (n v : Bytes) (req : Request) (rest : Bytes)
    → HasToken n
    → IsText v
    → run header_line_start req (n ++ (b':' ∷ b' ' ∷ (v ++ (b'\r' ∷ b'\n' ∷ rest))))
      ≡ run header_line_start (last_header req req.headers n v) rest
run_line [] v req rest h k = absurd (h.1 refl)
run_line (c ∷ n) v req rest h k =
    let tail = b' ' ∷ (v ++ (b'\r' ∷ b'\n' ∷ rest)) in
    run-breaks _ _ c (n ++ (b':' ∷ tail)) (step_first req c h.0.0)
    ∙ run-header_name n req req.headers (c ∷ []) tail h.0.1
    ∙ run-breaks _ _ _ (v ++ (b'\r' ∷ b'\n' ∷ rest)) (step_space _)
    ∙ run-header_value v req req.headers (c ∷ n) [] rest k

pub run-headers :
    (xs : List NameValue) (req : Request) (rest : Bytes)
    → All IsLine xs
    → run header_line_start req (format_headers xs rest)
      ≡ run header_line_start (record req { headers = req.headers ++ xs }) rest
run-headers [] req rest h = simp append-nil
run-headers (x ∷ xs) req rest h =
    run_line x.name x.value req (format_headers xs rest) h.0.name_token h.0.value_text
    ∙ run-headers xs _ rest h.1
    ∙ simp append_assoc
