-- ===== src/Parser/Message/Read.antt =====
-- The parser reads back every message that a client can write: GET without a body, POST with one.
use waspp.Base.{
  ℕ, suc, ◌^◌, ◌<◌, ◌≡◌, ◌≢◌, refl, ap, ◌∙◌, true, false, [], ◌∷◌, ◌++◌, List, Bytes, codes,
  equal_iff, length, is_empty, arith,
}
use waspp.Request.{Request, NameValue, empty_request, lookup, lookup_found, header}
use waspp.Strtol.{strtol_int, skip_spaces, read_signed}
use waspp.Parser.Chars.{is_token}
use waspp.Parser.Step.{
  is_true, indeterminate, method_start, header_line_start, expecting_newline_3, content_start, step,
  step_header_line_start, step_expecting_newline_3, start_content, breaks,
}
use waspp.Parser.{parse}
use waspp.Parser.Run.{run, parse-run}
use waspp.Parser.Sound.Defs.{declared}
use waspp.Parser.Sound.Content.{set_content_length_lem}
use waspp.Parser.Message.Format.{Message, IsMessage, format_head}
use waspp.Parser.Message.Line.{
  run-method_start, run-path, run-query, run-version, run-breaks, query_text,
}
use waspp.Parser.Message.Headers.{run-headers}
use waspp.Parser.Message.Body.{finished, last_state, run-body}

-- The request that a message stands for, as long as its body is not read.
abbrev pub read_request : Message → Request
read_request m = record empty_request {
  method = m.method;
  uri = m.path ++ query_text m.params;
  params = m.params;
  http_version_major = m.major;
  http_version_minor = m.minor;
  headers = m.headers;
}

step_last_cr :
    (req : Request)
    → step header_line_start b'\r' req ≡ breaks indeterminate expecting_newline_3 req
unfolding step step_header_line_start
step_last_cr req = refl

pub run-head :
    (m : Message) (rest : Bytes)
    → IsMessage m
    → run method_start empty_request (format_head m rest)
      ≡ run expecting_newline_3 (read_request m) (b'\n' ∷ rest)
run-head m rest v =
    run-method_start m.method empty_request _ v.method_token
    ∙ run-path m.path _ _ v.path_bytes
    ∙ run-query m.params _ _ v.params_pairs
    ∙ run-version m.major m.minor _ _ v.major_digit v.minor_digit
    ∙ run-headers m.headers _ _ v.headers_lines
    ∙ run-breaks _ _ _ _ (step_last_cr _)

step_get :
    (req : Request)
    → req.method ≡ codes "GET"
    → step expecting_newline_3 b'\n' req ≡ breaks is_true expecting_newline_3 req
unfolding step step_expecting_newline_3
step_get req e = ground (arith, equal_iff req.method (codes "GET"))

-- A GET is read back field by field, and nothing behind its empty line is consumed.
pub parse-format_get :
    (m : Message) (rest : Bytes)
    → IsMessage m
    → m.method ≡ codes "GET"
    → parse method_start empty_request (format_head m rest)
      ≡ record { result = is_true; state = expecting_newline_3; req = read_request m; rest = rest }
parse-format_get m rest v e =
    parse-run method_start empty_request (format_head m rest)
    ∙ run-head m rest v
    ∙ unfold run in rw (step_get (read_request m) e, run)

strtol_int-nil : strtol_int [] ≡ 0
unfolding strtol_int skip_spaces read_signed
strtol_int-nil = refl

declared-pos :
    (hs : List NameValue) (n : ℕ)
    → declared hs ≡ suc n
    → (lookup (codes "Content-Length") hs).0 ≢ []
declared-pos hs n e h = absurd (omega (arith, ap strtol_int h, strtol_int-nil))

is_empty_ne : (s : Bytes) → s ≢ [] → is_empty s ≡ false
is_empty_ne [] h = absurd (h refl)
is_empty_ne (c ∷ s) h = refl

pub start_content-declared :
    (req : Request) (n : ℕ)
    → (lookup (codes "Content-Length") req.headers).0 ≢ []
    → declared req.headers ≡ n
    → start_content req ≡ breaks indeterminate content_start (record req { content_length = n })
unfolding start_content header
start_content-declared req n h d =
    let found = lookup_found (codes "Content-Length") req.headers h in
    rw (is_empty_ne _ h)
      (ap (breaks indeterminate content_start) (set_content_length_lem _ ∙ simp (found, d)))

step_post :
    (req : Request) (n : ℕ)
    → req.method ≡ codes "POST"
    → declared req.headers ≡ suc n
    → step expecting_newline_3 b'\n' req
      ≡ breaks indeterminate content_start (record req { content_length = suc n })
unfolding step step_expecting_newline_3
step_post req n e d = ground (
  arith,
  equal_iff req.method (codes "GET"),
  equal_iff req.method (codes "POST"),
  start_content-declared req (suc n) (declared-pos req.headers n d) d,
)

finished-post :
    (m : Message) (c : ℕ) (body : Bytes)
    → declared m.headers ≡ length (c ∷ body)
    → finished (record (read_request m) { content_length = length (c ∷ body) }) (c ∷ body)
      ≡ record (read_request m) { content = c ∷ body; content_length = length (c ∷ body) }
finished-post m c body d = ground (
  arith,
  lookup_found (codes "Content-Length") m.headers (declared-pos m.headers (length body) d),
  set_content_length_lem (record (read_request m) { content_length = 0; content = c ∷ body }),
)

-- A POST whose `Content-Length` is the length of its body, at least 1, is read back field by field,
-- and nothing behind its body is consumed. The body may hold any bytes after the first one, which
-- must be a token byte.
pub parse-format_post :
    (m : Message) (c : ℕ) (body rest : Bytes)
    → IsMessage m
    → m.method ≡ codes "POST"
    → is_token c ≡ true
    → declared m.headers ≡ length (c ∷ body)
    → length (c ∷ body) < 2 ^ 32
    → parse method_start empty_request (format_head m (c ∷ (body ++ rest))) ≡ record {
      result = is_true;
      state = last_state body;
      req = record (read_request m) { content = c ∷ body; content_length = length (c ∷ body) };
      rest = rest;
    }
parse-format_post m c body rest v e t d h =
    parse-run method_start empty_request (format_head m (c ∷ (body ++ rest)))
    ∙ run-head m (c ∷ (body ++ rest)) v
    ∙ run-breaks _ _ _ _ (step_post (read_request m) (length body) e d)
    ∙ run-body c body _ rest t refl refl h
    ∙ ap (λ r. record { result = is_true; state = last_state body; req = r; rest = rest })
        (finished-post m c body d)
