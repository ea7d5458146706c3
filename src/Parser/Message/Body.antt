-- ===== src/Parser/Message/Body.antt =====
-- The parser over the body of a POST.
use waspp.Base.{
  ℕ, suc, ◌^◌, ◌<◌, ◌≡◌, refl, ◌∙◌, true, [], ◌∷◌, ◌++◌, Bytes, length, append_assoc, arith,
}
use waspp.Request.{Request}
use waspp.Parser.Chars.{is_token}
use waspp.Parser.Step.{
  State, is_true, indeterminate, content_start, content, step, step_content_start, step_content,
  take_content, set_content_length, breaks,
}
use waspp.Parser.Run.{run}

-- The request with its whole body, as the parser returns it.
abbrev pub finished : Request → Bytes → Request
finished req body =
    set_content_length (record req { content_length = 0; content = req.content ++ body })

-- One more byte completes the body.
take_last :
    (s : State) (req : Request) (c : ℕ)
    → req.content_length ≡ 1
    → take_content s c req ≡ breaks is_true s (finished req (c ∷ []))
unfolding take_content
take_last s req c e = ground arith

take_more :
    (s : State) (req : Request) (c n : ℕ)
    → req.content_length ≡ suc (suc n)
    → suc (suc n) < 2 ^ 32
    → take_content s c req
      ≡ breaks indeterminate content
          (record req { content_length = suc n; content = req.content ++ c ∷ [] })
unfolding take_content
take_more s req c n e h = ground arith

run-content :
    (c : ℕ) (body : Bytes) (req : Request) (rest : Bytes)
    → req.content_length ≡ length (c ∷ body)
    → length (c ∷ body) < 2 ^ 32
    → run content req (c ∷ (body ++ rest))
      ≡ record { result = is_true; state = content; req = finished req (c ∷ body); rest = rest }
unfolding run step step_content
run-content c [] req rest e h = rw (take_last content req c e, run)
run-content c (d ∷ body) req rest e h =
    rw (take_more content req c (length body) e h, run)
      (run-content d body _ rest refl (omega arith) ∙ rw append_assoc)

step_first :
    (req : Request) (c : ℕ)
    → is_token c ≡ true
    → req.content ≡ []
    → step content_start c req ≡ take_content content_start c req
unfolding step step_content_start
step_first req c t n = ground arith

-- The state in which a body of that length ends.
abbrev pub last_state : Bytes → State
last_state [] = content_start
last_state (d ∷ body) = content

pub run-body :
    (c : ℕ) (body : Bytes) (req : Request) (rest : Bytes)
    → is_token c ≡ true
    → req.content ≡ []
    → req.content_length ≡ length (c ∷ body)
    → length (c ∷ body) < 2 ^ 32
    → run content_start req (c ∷ (body ++ rest)) ≡ record {
      result = is_true;
      state = last_state body;
      req = finished req (c ∷ body);
      rest = rest;
    }
unfolding run
run-body c [] req rest t n e h = rw (step_first req c t n, take_last content_start req c e, run)
run-body c (d ∷ body) req rest t n e h =
    rw (step_first req c t n, take_more content_start req c (length body) e h, run)
      (run-content d body _ rest refl (omega arith) ∙ rw append_assoc)
