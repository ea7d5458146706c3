-- ===== src/Parser/Sound/Line.antt =====
-- The cases of the request line keep the invariant.
use waspp.Base.{ℕ, [], ◌∷◌, arith}
use waspp.Request.{Request}
use waspp.Parser.Step.{
  method_start, method, uri, param_name_start, param_name, param_value, step_method_start,
  step_method, step_uri, step_param_name_start, step_param_name, step_param_value,
}
use waspp.Parser.Clean.{
  IsToken-push, IsText-push, is_token-is_ctl, IsParam-new, IsParam-push_name, IsParam-push_value,
  is_empty-push_name, is_empty-push_value, is_empty-concat,
}
use waspp.Parser.Sound.Defs.{Inv, KeptBy}

pub step_method_start-Inv :
    (c : ℕ) (req : Request) → Inv method_start req → KeptBy method_start (step_method_start c req)
unfolding step_method_start
step_method_start-Inv c req v = ground (arith, IsToken-push req.method c v.clean.method_token)

pub step_method-Inv : (c : ℕ) (req : Request) → Inv method req → KeptBy method (step_method c req)
unfolding step_method
step_method-Inv c req v = ground (arith, IsToken-push req.method c v.clean.method_token)

pub step_uri-Inv : (c : ℕ) (req : Request) → Inv uri req → KeptBy uri (step_uri c req)
unfolding step_uri
step_uri-Inv c req v = ground (arith, IsText-push req.uri c v.clean.uri_text)

pub step_param_name_start-Inv :
    (c : ℕ) (req : Request)
    → Inv param_name_start req
    → KeptBy param_name_start (step_param_name_start c req)
unfolding step_param_name_start
step_param_name_start-Inv c req v = ground (
  arith,
  IsText-push req.uri c v.clean.uri_text,
  is_token-is_ctl c,
  IsParam-new req.params c v.clean.params_clean,
  is_empty-concat req.params (record { name = c ∷ []; value = [] }),
)

pub step_param_name-Inv :
    (c : ℕ) (req : Request) → Inv param_name req → KeptBy param_name (step_param_name c req)
unfolding step_param_name
step_param_name-Inv c req v = ground (
  arith,
  IsText-push req.uri c v.clean.uri_text,
  is_token-is_ctl c,
  IsParam-push_name req.params c v.clean.params_clean,
  is_empty-push_name req.params c,
)

pub step_param_value-Inv :
    (c : ℕ) (req : Request) → Inv param_value req → KeptBy param_value (step_param_value c req)
unfolding step_param_value
step_param_value-Inv c req v = ground (
  arith,
  IsText-push req.uri c v.clean.uri_text,
  is_token-is_ctl c,
  IsParam-push_value req.params c v.clean.params_clean,
  is_empty-push_value req.params c,
)
