-- ===== src/Parser/Sound/Defs.antt =====
-- The invariant of each parser state, and what an accepted request satisfies.
use waspp.Base.{ℕ, ◌+◌, ◌%◌, ◌^◌, ◌≡◌, ◌⊎◌, false, [], List, length, codes, is_empty}
use waspp.Request.{Request, NameValue, lookup}
use waspp.Strtol.{strtol_int}
use waspp.Parser.Step.{
  Tribool, is_true, is_false, indeterminate, State, param_name, param_value, header_lws,
  header_name, space_before_header_value, header_value, expecting_newline_2, content_start, content,
  Outcome, goes_on, breaks,
}
use waspp.Parser.Clean.{IsClean}

-- The number that the request's `Content-Length` header declares, as an `int`.
abbrev pub declared : List NameValue → ℕ
declared hs = strtol_int (lookup (codes "Content-Length") hs).0

-- `back()` is called on a vector that has an entry.
abbrev pub HasBack : State → Request → Type 0
HasBack param_name req = is_empty req.params ≡ false
HasBack param_value req = is_empty req.params ≡ false
HasBack header_lws req = is_empty req.headers ≡ false
HasBack header_name req = is_empty req.headers ≡ false
HasBack space_before_header_value req = is_empty req.headers ≡ false
HasBack header_value req = is_empty req.headers ≡ false
HasBack expecting_newline_2 req = is_empty req.headers ≡ false
HasBack _ req = Unit

-- The body read so far, against the count.
abbrev pub Counted : State → Request → Type 0
Counted content_start req =
    (req.method ≡ codes "POST") × (req.content ≡ []) × (req.content_length ≡ declared req.headers)
Counted content req =
    (req.method ≡ codes "POST")
    × ((req.content_length + length req.content) % 2 ^ 32 ≡ declared req.headers % 2 ^ 32)
Counted _ req = req.content ≡ []

pub record Inv (s : State) (req : Request) : Type 0 where
  pub clean : IsClean req
  pub has_back : HasBack s req
  pub counted : Counted s req

-- A GET has no body. The body of a POST has the length that its header declares, up to the wrap of
-- the counter.
abbrev pub IsComplete : Request → Type 0
IsComplete req =
    ((req.method ≡ codes "GET") × (req.content ≡ []))
    ⊎ ((req.method ≡ codes "POST")
        × (length req.content % 2 ^ 32 ≡ req.content_length % 2 ^ 32)
        × (req.content_length ≡ declared req.headers))

pub record IsAccepted (req : Request) : Type 0 where
  pub clean : IsClean req
  pub complete : IsComplete req

abbrev pub Kept : Tribool → State → Request → Type 0
Kept is_true s req = IsAccepted req
Kept is_false s req = IsClean req
Kept indeterminate s req = Inv s req

abbrev pub KeptBy : State → Outcome → Type 0
KeptBy s (goes_on req) = Inv s req
KeptBy s (breaks t s' req) = Kept t s' req
