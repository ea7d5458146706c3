-- ===== src/Handler/Length.antt =====
-- Every response of the handler announces the length of its content.
use waspp.Base.{
  ◌≡◌, refl, ◌∙◌, ◌⊎◌, inl, inr, false, List, [], ◌∷◌, ◌++◌, Bytes, codes, equal, length,
  Bool-cases, Option-cases, Option, none, some, arith,
}
use waspp.Request.{Request, NameValue, find_value}
use waspp.Response.{Response, static_response}
use waspp.Response.Static.{Status, ok, unauthorized, bad_request, not_found, internal_server_error}
use waspp.Response.Decimal.{to_string, read_decimal-to_string}
use waspp.Response.Wire.{HasLength, static_response-HasLength}
use waspp.MimeTypes.{extension_to_type}
use waspp.Config.{Config}
use waspp.Router.{Route, get_func, get_file}
use waspp.Handler.Access.{is_refused}
use waspp.Handler.Validate.{percent_decode_and_validate}
use waspp.Handler.{
  Env, Handled, handled, threw, handle_request, dispatch, fill_out, call_func, send_file, compress,
  cookie_headers, is_bad_path, add_header,
}

abbrev pub length_name : Bytes
length_name = codes "Content-Length"

-- The response has no `Content-Length` header yet.
abbrev pub Unframed : Response → Type 0
Unframed res = find_value length_name res.headers ≡ none

-- The functions of the routes leave that header to the handler.
abbrev pub RoutesUnframed : Env → Type 0
RoutesUnframed env =
    (r : Route) (cfg : Config) (req req' : Request) (res res' : Response)
    → Unframed res
    → env.func r cfg req res ≡ handled req' res'
    → Unframed res'

pub find_value-append :
    (n : Bytes) (xs ys : List NameValue)
    → find_value n xs ≡ none
    → find_value n (xs ++ ys) ≡ find_value n ys
unfolding find_value
find_value-append n [] ys h = refl
find_value-append n (x ∷ xs) ys h = ground (arith, find_value-append n xs ys)

find_value-cookies : (xs : List NameValue) → find_value length_name (cookie_headers xs) ≡ none
unfolding find_value cookie_headers equal
find_value-cookies [] = refl
find_value-cookies (x ∷ xs) = find_value-cookies xs

pub find_value-other :
    (n v : Bytes)
    → equal n length_name ≡ false
    → find_value length_name (record { name = n; value = v } ∷ []) ≡ none
unfolding find_value
find_value-other n v h = rw h

find_value-length :
    (v : Bytes) → find_value length_name (record { name = length_name; value = v } ∷ []) ≡ some v
unfolding find_value equal
find_value-length v = refl

add_header-Unframed :
    (n v : Bytes) (res : Response)
    → equal n length_name ≡ false
    → Unframed res
    → Unframed (add_header n v res)
add_header-Unframed n v res h k =
    find_value-append length_name res.headers _ k ∙ find_value-other n v h

encoding-name : equal (codes "Content-Encoding") length_name ≡ false
unfolding equal
encoding-name = refl

type-name : equal (codes "Content-Type") length_name ≡ false
unfolding equal
type-name = refl

keep-name : equal (codes "Keep-Alive") length_name ≡ false
unfolding equal
keep-name = refl

compress-Unframed :
    (env : Env) (cfg : Config) (req : Request) (res : Response)
    → Unframed res
    → Unframed (compress env cfg req res).1
unfolding compress
compress-Unframed env cfg req res h =
    let packed =
      add_header-Unframed (codes "Content-Encoding") (codes "gzip") res encoding-name h in
    ground arith

-- A `Content-Length` header is read back when it is the first.
add_header-HasLength :
    (res : Response)
    → Unframed res
    → HasLength
        (record (add_header length_name (to_string (length res.content)) res) { status = ok })
add_header-HasLength res h = record {
  value = to_string (length res.content);
  found = find_value-append length_name res.headers _ h ∙ find_value-length _;
  counts = read_decimal-to_string (length res.content);
}

-- What `fill_out` returns is a 200 response with its length.
fill_out-HasLength :
    (env : Env) (cfg : Config) (req : Request) (res : Response)
    → Unframed res
    → HasLength (fill_out env cfg req res).1 × ((fill_out env cfg req res).1.status ≡ ok)
unfolding fill_out
fill_out-HasLength env cfg req res h =
    let typed =
      add_header-Unframed (codes "Content-Type") (extension_to_type res.content_extension) res
        type-name h in
    let type_res =
      add_header (codes "Content-Type") (extension_to_type res.content_extension) res in
    let keep_res = add_header (codes "Keep-Alive") (codes "timeout=0, max=0") type_res in
    let kept =
      add_header-Unframed (codes "Keep-Alive") (codes "timeout=0, max=0") type_res keep-name
        typed in
    let cookied =
      find_value-append length_name keep_res.headers (cookie_headers res.cookies) kept
      ∙ find_value-cookies res.cookies in
    let cookie_res = record keep_res { headers = keep_res.headers ++ cookie_headers res.cookies } in
    let packed = compress env cfg req cookie_res in
    (add_header-HasLength packed.1 (compress-Unframed env cfg req cookie_res cookied), refl)

-- The statuses that the handler gives.
abbrev pub IsHandlerStatus : Status → Type 0
IsHandlerStatus s =
    (s ≡ ok)
    ⊎ (s ≡ unauthorized)
    ⊎ (s ≡ bad_request)
    ⊎ (s ≡ not_found)
    ⊎ (s ≡ internal_server_error)

-- A file's content and extension leave the headers as they are.
pub get_file-Unframed :
    (files : Bytes → Option Bytes) (cfg : Config) (res res' : Response) (uri : Bytes)
    → Unframed res
    → get_file files cfg res uri ≡ some res'
    → Unframed res'
unfolding get_file
get_file-Unframed files cfg res res' uri h k = ground arith

-- A response with its length, of a status that the handler gives.
abbrev pub IsAnswer : Response → Type 0
IsAnswer res = HasLength res × IsHandlerStatus res.status

pub static_response-IsAnswer : (s : Status) → IsHandlerStatus s → IsAnswer (static_response s)
unfolding static_response
static_response-IsAnswer s h = (static_response-HasLength s, h)

fill_out-IsAnswer :
    (env : Env) (cfg : Config) (req : Request) (res : Response)
    → Unframed res
    → IsAnswer (fill_out env cfg req res).1
fill_out-IsAnswer env cfg req res h =
    let (l, e) = fill_out-HasLength env cfg req res h in (l, inl e)

call_func-IsAnswer :
    (env : Env) (cfg : Config) (handled_res : Handled)
    → ((req' : Request) (res' : Response) → handled_res ≡ handled req' res' → Unframed res')
    → IsAnswer (call_func env cfg handled_res).1
unfolding call_func
call_func-IsAnswer env cfg (handled req' res') h =
    fill_out-IsAnswer env cfg req' res' (h req' res' refl)
call_func-IsAnswer env cfg (threw req') h =
    static_response-IsAnswer internal_server_error (inr (inr (inr (inr refl))))

send_file-IsAnswer :
    (env : Env) (cfg : Config) (req : Request) (file : Option Response)
    → ((res' : Response) → file ≡ some res' → Unframed res')
    → IsAnswer (send_file env cfg req file).1
unfolding send_file
send_file-IsAnswer env cfg req none h =
    static_response-IsAnswer not_found (inr (inr (inr (inl refl))))
send_file-IsAnswer env cfg req (some res') h = fill_out-IsAnswer env cfg req res' (h res' refl)

dispatch-IsAnswer :
    (env : Env) (cfg : Config) (req : Request) (res : Response) (uri : Bytes)
    → RoutesUnframed env
    → Unframed res
    → IsAnswer (dispatch env cfg req res uri).1
unfolding dispatch
dispatch-IsAnswer env cfg req res uri hs h = elim (Option-cases (get_func uri)) [
  | inl missing ↦
      rw (dispatch, missing)
        (send_file-IsAnswer env cfg req (get_file env.files cfg res uri)
          (λ res' e. get_file-Unframed env.files cfg res res' uri h e))
  | inr (route, found) ↦
      rw (dispatch, found)
        (call_func-IsAnswer env cfg (env.func route cfg req res)
          (λ req' res' e. hs route cfg req req' res res' h e))
]

-- When the functions of the routes do not set a `Content-Length` themselves, every response of the
-- handler has a `Content-Length` header with the decimal length of its content, and its status is
-- 200, 401, 400, 404 or 500.
pub handle_request-IsAnswer :
    (env : Env) (cfg : Config) (req : Request) (res : Response)
    → RoutesUnframed env
    → Unframed res
    → IsAnswer (handle_request env cfg req res).1
unfolding handle_request
handle_request-IsAnswer env cfg req res hs h =
    let refused = static_response-IsAnswer unauthorized (inr (inl refl)) in
    let bad = static_response-IsAnswer bad_request (inr (inr (inl refl))) in
    elim (Bool-cases (is_refused env.find cfg req.remote_addr)) [
      | inl denied ↦ rw (handle_request, denied) refused
      | inr granted ↦ elim (Option-cases (percent_decode_and_validate req.uri)) [
        | inl undecoded ↦ rw (handle_request, granted, undecoded) bad
        | inr (uri, decoded) ↦ elim (Bool-cases (is_bad_path uri)) [
          | inl unsafe ↦ rw (handle_request, granted, decoded, unsafe) bad
          | inr good ↦
              rw (handle_request, granted, decoded, good)
                (dispatch-IsAnswer env cfg req res uri hs h)
        ]
      ]
    ]
