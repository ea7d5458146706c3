-- ===== src/Parser/Clean.antt =====
-- The bytes that the parser lets into a request: tokens in the method, in the parameters and in the
-- names of headers, and no control byte in the URI and in the values of headers.
use waspp.Base.{
  ℕ, ◌≡◌, refl, true, false, List, [], ◌∷◌, ◌++◌, Bytes, All, All-append, is_empty, arith,
}
use waspp.Request.{Request, NameValue, lookup, empty_request}
use waspp.Parser.Chars.{is_token, is_ctl}
use waspp.Parser.Step.{push_name, push_value}

abbrev pub IsToken : Bytes → Type 0
IsToken = All λ c. is_token c ≡ true

abbrev pub IsText : Bytes → Type 0
IsText = All λ c. is_ctl c ≡ false

pub record IsHeader (x : NameValue) : Type 0 where
  pub name_token : IsToken x.name
  pub value_text : IsText x.value

pub record IsParam (x : NameValue) : Type 0 where
  pub name_token : IsToken x.name
  pub value_token : IsToken x.value

pub record IsClean (req : Request) : Type 0 where
  pub method_token : IsToken req.method
  pub uri_text : IsText req.uri
  pub headers_clean : All IsHeader req.headers
  pub params_clean : All IsParam req.params

pub IsToken-push : (s : Bytes) (c : ℕ) → IsToken s → is_token c ≡ true → IsToken (s ++ c ∷ [])
IsToken-push s c h k = All-append _ s (c ∷ []) h (k, tt)

pub IsText-push : (s : Bytes) (c : ℕ) → IsText s → is_ctl c ≡ false → IsText (s ++ c ∷ [])
IsText-push s c h k = All-append _ s (c ∷ []) h (k, tt)

-- A token byte is no control byte.
pub is_token-is_ctl : (c : ℕ) → is_token c ≡ true → is_ctl c ≡ false
unfolding is_token
is_token-is_ctl c h = ground arith

pub IsHeader-new :
    (xs : List NameValue) (c : ℕ)
    → All IsHeader xs
    → is_token c ≡ true
    → All IsHeader (xs ++ record { name = c ∷ []; value = [] } ∷ [])
IsHeader-new xs c h k =
    All-append IsHeader xs _ h (record { name_token = (k, tt); value_text = tt }, tt)

pub IsParam-new :
    (xs : List NameValue) (c : ℕ)
    → All IsParam xs
    → is_token c ≡ true
    → All IsParam (xs ++ record { name = c ∷ []; value = [] } ∷ [])
IsParam-new xs c h k =
    All-append IsParam xs _ h (record { name_token = (k, tt); value_token = tt }, tt)

pub IsHeader-push_name :
    (xs : List NameValue) (c : ℕ)
    → All IsHeader xs
    → is_token c ≡ true
    → All IsHeader (push_name xs c)
unfolding push_name
IsHeader-push_name [] c h k = tt
IsHeader-push_name (x ∷ []) c h k = (
  record { name_token = IsToken-push x.name c h.0.name_token k; value_text = h.0.value_text },
  tt,
)
IsHeader-push_name (x ∷ y ∷ ys) c h k = (h.0, IsHeader-push_name (y ∷ ys) c h.1 k)

pub IsHeader-push_value :
    (xs : List NameValue) (c : ℕ)
    → All IsHeader xs
    → is_ctl c ≡ false
    → All IsHeader (push_value xs c)
unfolding push_value
IsHeader-push_value [] c h k = tt
IsHeader-push_value (x ∷ []) c h k = (
  record { name_token = h.0.name_token; value_text = IsText-push x.value c h.0.value_text k },
  tt,
)
IsHeader-push_value (x ∷ y ∷ ys) c h k = (h.0, IsHeader-push_value (y ∷ ys) c h.1 k)

pub IsParam-push_name :
    (xs : List NameValue) (c : ℕ)
    → All IsParam xs
    → is_token c ≡ true
    → All IsParam (push_name xs c)
unfolding push_name
IsParam-push_name [] c h k = tt
IsParam-push_name (x ∷ []) c h k = (
  record { name_token = IsToken-push x.name c h.0.name_token k; value_token = h.0.value_token },
  tt,
)
IsParam-push_name (x ∷ y ∷ ys) c h k = (h.0, IsParam-push_name (y ∷ ys) c h.1 k)

pub IsParam-push_value :
    (xs : List NameValue) (c : ℕ)
    → All IsParam xs
    → is_token c ≡ true
    → All IsParam (push_value xs c)
unfolding push_value
IsParam-push_value [] c h k = tt
IsParam-push_value (x ∷ []) c h k = (
  record { name_token = h.0.name_token; value_token = IsToken-push x.value c h.0.value_token k },
  tt,
)
IsParam-push_value (x ∷ y ∷ ys) c h k = (h.0, IsParam-push_value (y ∷ ys) c h.1 k)

pub IsHeader-lookup :
    (n : Bytes) (xs : List NameValue) → IsToken n → All IsHeader xs → All IsHeader (lookup n xs).1
unfolding lookup
IsHeader-lookup n xs t h = ground (
  arith,
  All-append IsHeader xs (record { name = n; value = [] } ∷ []) h
      (record { name_token = t; value_text = tt }, tt),
)

pub is_empty-push_name : (xs : List NameValue) (c : ℕ) → is_empty (push_name xs c) ≡ is_empty xs
unfolding push_name
is_empty-push_name [] c = refl
is_empty-push_name (x ∷ []) c = refl
is_empty-push_name (x ∷ y ∷ ys) c = refl

pub is_empty-push_value : (xs : List NameValue) (c : ℕ) → is_empty (push_value xs c) ≡ is_empty xs
unfolding push_value
is_empty-push_value [] c = refl
is_empty-push_value (x ∷ []) c = refl
is_empty-push_value (x ∷ y ∷ ys) c = refl

pub is_empty-concat {ℓ} : {A : Type ℓ} (xs : List A) (x : A) → is_empty (xs ++ x ∷ []) ≡ false
is_empty-concat [] x = refl
is_empty-concat (y ∷ ys) x = refl

pub empty_request-IsClean : IsClean empty_request
empty_request-IsClean = record {
  method_token = tt;
  uri_text = tt;
  headers_clean = tt;
  params_clean = tt;
}
