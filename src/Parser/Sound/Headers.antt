-- ===== src/Parser/Sound/Headers.antt =====
-- The cases of the header lines keep the invariant.
use waspp.Base.{ℕ, [], ◌∷◌, arith}
use waspp.Request.{Request}
use waspp.Parser.Step.{
  header_line_start, header_lws, header_name, header_value, step_header_line_start, step_header_lws,
  step_header_name, step_header_value,
}
use waspp.Parser.Clean.{
  IsHeader-new, IsHeader-push_name, IsHeader-push_value, is_empty-push_name, is_empty-push_value,
  is_empty-concat,
}
use waspp.Parser.Sound.Defs.{Inv, KeptBy}

pub step_header_line_start-Inv :
    (c : ℕ) (req : Request)
    → Inv header_line_start req
    → KeptBy header_line_start (step_header_line_start c req)
unfolding step_header_line_start
step_header_line_start-Inv c req v = ground (
  arith,
  IsHeader-new req.headers c v.clean.headers_clean,
  is_empty-concat req.headers (record { name = c ∷ []; value = [] }),
)

pub step_header_lws-Inv :
    (c : ℕ) (req : Request) → Inv header_lws req → KeptBy header_lws (step_header_lws c req)
unfolding step_header_lws
step_header_lws-Inv c req v = ground (
  arith,
  IsHeader-push_value req.headers c v.clean.headers_clean,
  is_empty-push_value req.headers c,
)

pub step_header_name-Inv :
    (c : ℕ) (req : Request) → Inv header_name req → KeptBy header_name (step_header_name c req)
unfolding step_header_name
step_header_name-Inv c req v = ground (
  arith,
  IsHeader-push_name req.headers c v.clean.headers_clean,
  is_empty-push_name req.headers c,
)

pub step_header_value-Inv :
    (c : ℕ) (req : Request) → Inv header_value req → KeptBy header_value (step_header_value c req)
unfolding step_header_value
step_header_value-Inv c req v = ground (
  arith,
  IsHeader-push_value req.headers c v.clean.headers_clean,
  is_empty-push_value req.headers c,
)
