-- ===== src/Parser/Sound/Content.antt =====
-- The end of the header block and the body keep the invariant.
use waspp.Base.{
  ℕ, ◌+◌, ◌%◌, ◌^◌, ◌≡◌, refl, ap, [], ◌∷◌, List, length, length-append, equal_iff, codes, arith,
}
use waspp.Request.{Request, NameValue, header, lookup, lookup_again}
use waspp.Strtol.{strtol_int}
use waspp.Parser.Chars.{is_token}
use waspp.Parser.Step.{
  State, expecting_newline_3, content_start, content, step_expecting_newline_3, start_content,
  step_content_start, step_content, take_content, set_content_length, push_content,
}
use waspp.Parser.Clean.{IsClean, IsToken, IsHeader-lookup}
use waspp.Parser.Sound.Defs.{declared, Inv, KeptBy}

pub Content-Length-IsToken : IsToken (codes "Content-Length")
unfolding is_token
Content-Length-IsToken = (
  refl,
  (
    refl,
    (
      refl,
      (refl, (refl, (refl, (refl, (refl, (refl, (refl, (refl, (refl, (refl, (refl, tt))))))))))),
    ),
  ),
)

pub declared-lookup :
    (hs : List NameValue) → declared (lookup (codes "Content-Length") hs).1 ≡ declared hs
declared-lookup hs = ap strtol_int (lookup_again (codes "Content-Length") hs)

lookup-IsClean :
    (req : Request)
    → IsClean req
    → IsClean (record req { headers = (lookup (codes "Content-Length") req.headers).1 })
lookup-IsClean req v = record {
  method_token = v.method_token;
  uri_text = v.uri_text;
  headers_clean =
      IsHeader-lookup (codes "Content-Length") req.headers Content-Length-IsToken v.headers_clean;
  params_clean = v.params_clean;
}

-- `strtol` on the declared length puts its number into the count.
pub set_content_length_lem :
    (req : Request)
    → set_content_length req ≡ record req {
      headers = (lookup (codes "Content-Length") req.headers).1;
      content_length = declared req.headers;
    }
unfolding set_content_length header
set_content_length_lem req = refl

pub start_content-Inv :
    (req : Request)
    → Inv expecting_newline_3 req
    → req.method ≡ codes "POST"
    → KeptBy expecting_newline_3 (start_content req)
unfolding start_content header
start_content-Inv req v m =
    let found = record req { headers = (lookup (codes "Content-Length") req.headers).1 } in
    ground (
      arith,
      lookup-IsClean req v.clean,
      lookup-IsClean found (lookup-IsClean req v.clean),
      set_content_length_lem found,
      declared-lookup found.headers,
    )

pub step_expecting_newline_3-Inv :
    (c : ℕ) (req : Request)
    → Inv expecting_newline_3 req
    → KeptBy expecting_newline_3 (step_expecting_newline_3 c req)
unfolding step_expecting_newline_3
step_expecting_newline_3-Inv c req v = ground (
  arith,
  equal_iff req.method (codes "GET"),
  equal_iff req.method (codes "POST"),
  start_content-Inv req v,
)

pub take_content-Inv :
    (s : State) (c : ℕ) (req : Request)
    → IsClean req
    → req.method ≡ codes "POST"
    → (req.content_length + length req.content) % 2 ^ 32 ≡ declared req.headers % 2 ^ 32
    → KeptBy s (take_content s c req)
unfolding take_content
take_content-Inv s c req v m h =
    let taken = push_content req c in
    ground (
      arith,
      lookup-IsClean taken (record {
        method_token = v.method_token;
        uri_text = v.uri_text;
        headers_clean = v.headers_clean;
        params_clean = v.params_clean;
      }),
      set_content_length_lem taken,
      declared-lookup req.headers,
      length-append req.content (c ∷ []),
    )

pub step_content_start-Inv :
    (c : ℕ) (req : Request)
    → Inv content_start req
    → KeptBy content_start (step_content_start c req)
unfolding step_content_start
step_content_start-Inv c req v =
    ground (arith, take_content-Inv content_start c req v.clean v.counted.0)

pub step_content-Inv :
    (c : ℕ) (req : Request) → Inv content req → KeptBy content (step_content c req)
unfolding step_content
step_content-Inv c req v = take_content-Inv content c req v.clean v.counted.0 v.counted.1
