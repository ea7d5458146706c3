-- ===== src/Handler/Confined.antt =====
-- Which files `handle_request` of src/request_handler.cpp reads.
use waspp.Base.{
  ◌≡◌, ◌≢◌, refl, sym, ap, ◌∙◌, false, inl, inr, [], ◌∷◌, ◌++◌, Bytes, codes, find, find-occurs,
  Bool-cases, Option-cases, Option, none, some, arith,
}
use waspp.Request.{Request}
use waspp.Response.{Response}
use waspp.Config.{Config}
use waspp.Router.{Route, get_func, get_file, full_path}
use waspp.Handler.Access.{is_refused}
use waspp.Handler.Validate.{percent_decode_and_validate}
use waspp.Handler.{
  Env, Handled, handled, threw, handle_request, dispatch, send_file, call_func, fill_out, compress,
  is_bad_path,
}

-- A path that begins with a slash and holds no two dots in a row.
pub record IsSafe (uri : Bytes) : Type 0 where
  pub rest : Bytes
  pub absolute : uri ≡ b'/' ∷ rest
  pub no_dots : (pre post : Bytes) → uri ≢ pre ++ (codes ".." ++ post)

is_bad_path-IsSafe : (uri : Bytes) → is_bad_path uri ≡ false → IsSafe uri
unfolding is_bad_path
is_bad_path-IsSafe [] h = cc
is_bad_path-IsSafe (c ∷ cs) h = record {
  rest = cs;
  absolute = ground arith;
  no_dots = λ pre post e.
      find-occurs pre (codes "..") post (ap (λ s. find s (codes "..")) (sym e) ∙ ground arith);
}

-- The paths that `full_path` makes of safe paths: the document root, a safe path, and "/index.html"
-- where that ends in a slash.
pub record IsInside (cfg : Config) (path : Bytes) : Type 0 where
  pub uri : Bytes
  pub safe : IsSafe uri
  pub under_root : path ≡ full_path cfg uri

-- Functions of the routes.
abbrev pub Functions : Type 0
Functions = Route → Config → Request → Response → Handled

-- Other functions of the routes and another file system in place of those at hand.
abbrev pub with_files : Functions → (Bytes → Option Bytes) → Env → Env
with_files func files env = record env { func = func; files = files }

pub get_file-files :
    (files files' : Bytes → Option Bytes) (cfg : Config) (res : Response) (uri : Bytes)
    → files (full_path cfg uri) ≡ files' (full_path cfg uri)
    → get_file files cfg res uri ≡ get_file files' cfg res uri
unfolding get_file
get_file-files files files' cfg res uri e = rw (get_file, e)

fill_out-files :
    (env : Env) (func : Functions) (files : Bytes → Option Bytes) (cfg : Config) (req : Request)
    (res : Response)
    → fill_out env cfg req res ≡ fill_out (with_files func files env) cfg req res
unfolding fill_out compress
fill_out-files env func files cfg req res = refl

call_func-files :
    (env : Env) (func : Functions) (files : Bytes → Option Bytes) (cfg : Config)
    (handled_res : Handled)
    → call_func env cfg handled_res ≡ call_func (with_files func files env) cfg handled_res
unfolding call_func
call_func-files env func files cfg (handled req res) = fill_out-files env func files cfg req res
call_func-files env func files cfg (threw req) = refl

send_file-files :
    (env : Env) (func : Functions) (files : Bytes → Option Bytes) (cfg : Config) (req : Request)
    (file : Option Response)
    → send_file env cfg req file ≡ send_file (with_files func files env) cfg req file
unfolding send_file
send_file-files env func files cfg req none = refl
send_file-files env func files cfg req (some res) = fill_out-files env func files cfg req res

module _ (env : Env) (func : Functions) (files : Bytes → Option Bytes) (cfg : Config)
    (req : Request) (res : Response)
    (functions : (route : Route) → env.func route cfg req res ≡ func route cfg req res) where
  dispatch-files :
      (uri : Bytes)
      → env.files (full_path cfg uri) ≡ files (full_path cfg uri)
      → dispatch env cfg req res uri ≡ dispatch (with_files func files env) cfg req res uri
  unfolding dispatch
  dispatch-files uri e = elim (Option-cases (get_func uri)) [
    | inl missing ↦
        rw (dispatch, missing)
          (send_file-files env func files cfg req (get_file env.files cfg res uri)
            ∙ ap (send_file (with_files func files env) cfg req)
                (get_file-files env.files files cfg res uri e))
    | inr (route, found) ↦
        rw (dispatch, found)
          (call_func-files env func files cfg (env.func route cfg req res)
            ∙ ap (call_func (with_files func files env) cfg) (functions route))
  ]

  -- With functions that do the same for the request, and with two file systems that agree on the paths
  -- that begin with the document root and go on with a slash and no two dots in a row, `handle_request`
  -- does the same.
  pub handle_request-files :
      ((path : Bytes) → IsInside cfg path → env.files path ≡ files path)
      → handle_request env cfg req res ≡ handle_request (with_files func files env) cfg req res
  unfolding handle_request
  handle_request-files h = elim (Bool-cases (is_refused env.find cfg req.remote_addr)) [
    | inl denied ↦ rw denied
    | inr granted ↦ elim (Option-cases (percent_decode_and_validate req.uri)) [
      | inl undecoded ↦ rw (granted, undecoded)
      | inr (uri, decoded) ↦ elim (Bool-cases (is_bad_path uri)) [
        | inl unsafe ↦ rw (granted, decoded, unsafe)
        | inr good ↦
            let inside : IsInside cfg (full_path cfg uri) = record {
              uri = uri;
              safe = is_bad_path-IsSafe uri good;
              under_root = refl;
            } in
            rw (granted, decoded, good) (dispatch-files uri (h (full_path cfg uri) inside))
      ]
    ]
  ]
