-- ===== src/Parser/Message/Line.antt =====
-- The parser over the pieces of a request line, with any text behind them.
use waspp.Base.{
  ℕ, ◌+◌, ◌<◌, ◌≡◌, refl, ◌∙◌, ap, List, [], ◌∷◌, ◌++◌, Bytes, All, append_assoc, append-nil, arith,
}
use waspp.Request.{Request, NameValue}
use waspp.Parser.Chars.{is_token}
use waspp.Parser.Step.{
  indeterminate, State, method_start, method, uri, param_name_start, param_name, param_value,
  http_version_h, http_version_major_start, http_version_major, http_version_minor_start,
  http_version_minor, header_line_start, goes_on, breaks, step, push_name, push_value, step_expect,
  step_method_start, step_method, step_uri, step_param_name_start, step_param_name,
  step_param_value, step_http_version_slash, step_major_start, step_major, step_minor_start,
  step_minor,
}
use waspp.Parser.Clean.{IsToken}
use waspp.Parser.Run.{run}
use waspp.Parser.Message.Format.{IsPath, IsValue, HasToken, IsPair, format_pairs, format_query}

pub run-goes_on :
    (s : State) (req : Request) (c : ℕ) (cs : Bytes) {r : Request}
    → step s c req ≡ goes_on r
    → run s req (c ∷ cs) ≡ run s r cs
unfolding run
run-goes_on s req c cs e = rw (e, run)

pub run-breaks :
    (s : State) (req : Request) (c : ℕ) (cs : Bytes) {s' : State} {r : Request}
    → step s c req ≡ breaks indeterminate s' r
    → run s req (c ∷ cs) ≡ run s' r cs
unfolding run
run-breaks s req c cs e = rw (e, run)

pub push_name-concat :
    (xs : List NameValue) (x : NameValue) (c : ℕ)
    → push_name (xs ++ x ∷ []) c ≡ xs ++ record x { name = x.name ++ c ∷ [] } ∷ []
unfolding push_name
push_name-concat [] x c = refl
push_name-concat (y ∷ []) x c = refl
push_name-concat (y ∷ z ∷ zs) x c = ap (◌∷◌ y) (push_name-concat (z ∷ zs) x c)

pub push_value-concat :
    (xs : List NameValue) (x : NameValue) (c : ℕ)
    → push_value (xs ++ x ∷ []) c ≡ xs ++ record x { value = x.value ++ c ∷ [] } ∷ []
unfolding push_value
push_value-concat [] x c = refl
push_value-concat (y ∷ []) x c = refl
push_value-concat (y ∷ z ∷ zs) x c = ap (◌∷◌ y) (push_value-concat (z ∷ zs) x c)

run-method :
    (m : Bytes) (req : Request) (rest : Bytes)
    → IsToken m
    → run method req (m ++ (b' ' ∷ rest)) ≡ run uri (record req { method = req.method ++ m }) rest
unfolding step step_method is_token
run-method [] req rest h = rw append-nil (run-breaks _ _ _ rest refl)
run-method (c ∷ m) req rest h =
    run-goes_on _ _ c (m ++ (b' ' ∷ rest)) (ground arith)
    ∙ run-method m (record req { method = req.method ++ c ∷ [] }) rest h.1
    ∙ rw append_assoc

-- From the start to the space behind the method.
pub run-method_start :
    (m : Bytes) (req : Request) (rest : Bytes)
    → HasToken m
    → run method_start req (m ++ (b' ' ∷ rest))
      ≡ run uri (record req { method = req.method ++ m }) rest
unfolding step step_method_start is_token
run-method_start [] req rest h = absurd (h.1 refl)
run-method_start (c ∷ m) req rest h =
    run-breaks _ _ c (m ++ (b' ' ∷ rest)) (ground arith)
    ∙ run-method m (record req { method = req.method ++ c ∷ [] }) rest h.0.1
    ∙ rw append_assoc

pub run-path :
    (p : Bytes) (req : Request) (rest : Bytes)
    → All IsPath p
    → run uri req (p ++ rest) ≡ run uri (record req { uri = req.uri ++ p }) rest
unfolding step step_uri
run-path [] req rest h = rw append-nil
run-path (c ∷ p) req rest h =
    run-goes_on _ _ c (p ++ rest) (ground arith)
    ∙ run-path p (record req { uri = req.uri ++ c ∷ [] }) rest h.1
    ∙ rw append_assoc

-- The request with its last parameter so far, and the part of the URI that was read for it.
abbrev last_param : Request → Bytes → List NameValue → Bytes → Bytes → Request
last_param req u xs n v = record req { uri = u; params = xs ++ record { name = n; value = v } ∷ [] }

run-param_name :
    (m : Bytes) (req : Request) (u : Bytes) (xs : List NameValue) (n : Bytes) (rest : Bytes)
    → IsToken m
    → run param_name (last_param req u xs n []) (m ++ (b'=' ∷ rest))
      ≡ run param_value (last_param req (u ++ (m ++ b'=' ∷ [])) xs (n ++ m) []) rest
unfolding step step_param_name is_token
run-param_name [] req u xs n rest h = rw append-nil (run-breaks _ _ _ rest refl)
run-param_name (c ∷ m) req u xs n rest h =
    run-goes_on _ _ c (m ++ (b'=' ∷ rest))
      (ground (arith, push_name-concat xs (record { name = n; value = [] }) c))
    ∙ run-param_name m req (u ++ c ∷ []) xs (n ++ c ∷ []) rest h.1
    ∙ simp append_assoc

run-param_value :
    (m : Bytes) (req : Request) (u : Bytes) (xs : List NameValue) (n v : Bytes) (rest : Bytes)
    → All IsValue m
    → run param_value (last_param req u xs n v) (m ++ rest)
      ≡ run param_value (last_param req (u ++ m) xs n (v ++ m)) rest
unfolding step step_param_value is_token
run-param_value [] req u xs n v rest h = simp append-nil
run-param_value (c ∷ m) req u xs n v rest h =
    run-goes_on _ _ c (m ++ rest)
      (ground (arith, push_value-concat xs (record { name = n; value = v }) c))
    ∙ run-param_value m req (u ++ c ∷ []) xs n (v ++ c ∷ []) rest h.1
    ∙ simp append_assoc

-- One parameter, from the first byte of its name up to the end of its value.
run_pair :
    (n v : Bytes) (req : Request) (rest : Bytes)
    → HasToken n
    → All IsValue v
    → run param_name_start req (n ++ (b'=' ∷ (v ++ rest)))
      ≡ run param_value (last_param req (req.uri ++ (n ++ (b'=' ∷ v))) req.params n v) rest
unfolding step step_param_name_start is_token
run_pair [] v req rest h k = absurd (h.1 refl)
run_pair (c ∷ n) v req rest h k =
    run-breaks _ _ c (n ++ (b'=' ∷ (v ++ rest))) (ground arith)
    ∙ run-param_name n req (req.uri ++ c ∷ []) req.params (c ∷ []) (v ++ rest) h.0.1
    ∙ run-param_value v req _ req.params (c ∷ n) [] rest k
    ∙ simp append_assoc

-- What the parser makes of the parameters of a message, from the question mark on.
abbrev pub query_text : List NameValue → Bytes
query_text xs = format_query xs []

run-pairs :
    (x : NameValue) (xs : List NameValue) (req : Request) (rest : Bytes)
    → All IsPair (x ∷ xs)
    → run param_name_start req (format_pairs (x ∷ xs) (b' ' ∷ rest))
      ≡ run http_version_h
          (record req { uri = req.uri ++ format_pairs (x ∷ xs) []; params = req.params ++ x ∷ xs })
          rest
unfolding step step_param_value
run-pairs x [] req rest h =
    run_pair x.name x.value req (b' ' ∷ rest) h.0.name_token h.0.value_bytes
    ∙ run-breaks _ _ _ rest refl
    ∙ simp append-nil
run-pairs x (y ∷ ys) req rest h =
    run_pair x.name x.value req (b'&' ∷ format_pairs (y ∷ ys) (b' ' ∷ rest)) h.0.name_token
      h.0.value_bytes
    ∙ run-breaks _ _ _ (format_pairs (y ∷ ys) (b' ' ∷ rest)) refl
    ∙ run-pairs y ys _ rest h.1
    ∙ simp append_assoc

-- The parameters, or none, and the space behind them.
pub run-query :
    (xs : List NameValue) (req : Request) (rest : Bytes)
    → All IsPair xs
    → run uri req (format_query xs (b' ' ∷ rest))
      ≡ run http_version_h
          (record req { uri = req.uri ++ query_text xs; params = req.params ++ xs })
          rest
unfolding step step_uri
run-query [] req rest h = run-breaks _ _ _ rest refl ∙ simp append-nil
run-query (x ∷ xs) req rest h =
    run-breaks _ _ _ (format_pairs (x ∷ xs) (b' ' ∷ rest)) refl
    ∙ run-pairs x xs _ rest h
    ∙ simp append_assoc

run_major :
    (d : ℕ) (req : Request) (rest : Bytes)
    → d < 10
    → req.http_version_major ≡ 0
    → run http_version_major_start req ((48 + d) ∷ rest)
      ≡ run http_version_major (record req { http_version_major = d }) rest
unfolding step step_major_start
run_major d req rest h e = run-breaks _ _ (48 + d) rest (ground arith)

run_minor :
    (d : ℕ) (req : Request) (rest : Bytes)
    → d < 10
    → req.http_version_minor ≡ 0
    → run http_version_minor_start req ((48 + d) ∷ rest)
      ≡ run http_version_minor (record req { http_version_minor = d }) rest
unfolding step step_minor_start
run_minor d req rest h e = run-breaks _ _ (48 + d) rest (ground arith)

-- The version, with one digit on each side of the point, up to the end of the line.
pub run-version :
    (major minor : ℕ) (req : Request) (rest : Bytes)
    → major < 10
    → minor < 10
    → run http_version_h req (
        b'H'
        ∷ b'T'
        ∷ b'T'
        ∷ b'P'
        ∷ b'/'
        ∷ (48 + major)
        ∷ b'.'
        ∷ (48 + minor)
        ∷ b'\r'
        ∷ b'\n'
        ∷ rest)
      ≡ run header_line_start
          (record req { http_version_major = major; http_version_minor = minor })
          rest
unfolding step step_expect step_http_version_slash step_major_start step_major step_minor_start
    step_minor
run-version major minor req rest h k =
    run-breaks _ _ _ _ refl
    ∙ run-breaks _ _ _ _ refl
    ∙ run-breaks _ _ _ _ refl
    ∙ run-breaks _ _ _ _ refl
    ∙ run-breaks _ _ _ _ refl
    ∙ run_major major _ _ h refl
    ∙ run-breaks _ _ _ _ refl
    ∙ run_minor minor _ _ k refl
    ∙ run-breaks _ _ _ _ refl
    ∙ run-breaks _ _ _ _ refl
