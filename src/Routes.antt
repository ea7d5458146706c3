-- ===== src/Routes.antt =====
-- What the functions of the routes, in src/route_dir_*.cpp, are written in: the session, the database,
-- the error page, and a `return` in the middle. `performance_checker`, which logs, is left out.
pub mod Trees
pub mod Forum
pub mod User
pub mod Performance
pub mod Table
pub mod Ends
pub mod Entries
pub mod Pages
pub mod Served
pub mod Authorized
pub mod Triple
pub mod SignIn
pub mod Sessions
pub mod Auth
pub mod Tested
pub mod Admitted
pub mod Owned
pub mod Confined
pub mod Tidy
pub mod Placed
use waspp.Base.{
  ℕ, Bool, true, false, List, [], ◌∷◌, ◌++◌, if◌then◌else◌, Bytes, codes, Option, none, some,
}
use waspp.Request.{Request, NameValue, param}
use waspp.Response.{Response, redirect_to, delete_cookie}
use waspp.Config.{Config}
use waspp.Config.Init.{err_msg}
use waspp.Router.{get_file}
use waspp.Session as Session
use waspp.Session.{Loaded, accepted, refused}
use Trees.{Json}

-- `error_type`
pub data ErrorType : Type 0 where
  err_none unknown unauthorized username_required passwd_required username_not_found : ErrorType
  auth_failed platformtype_required platformid_required passwds_not_identical : ErrorType
  username_not_available users_insert_failed title_required content_required : ErrorType
  forum_insert_failed : ErrorType

abbrev pub error_code : ErrorType → ℕ
error_code err_none = 0
error_code unknown = 1
error_code unauthorized = 1001
error_code username_required = 1101
error_code passwd_required = 1102
error_code username_not_found = 1103
error_code auth_failed = 1104
error_code platformtype_required = 1105
error_code platformid_required = 1106
error_code passwds_not_identical = 1107
error_code username_not_available = 1108
error_code users_insert_failed = 1109
error_code title_required = 1201
error_code content_required = 1202
error_code forum_insert_failed = 1203

-- Which pool a `scoped_db` takes its connection from: by a text's checksum, or by its place.
pub data Target : Type 0 where
  by_text : Bytes → Target
  db_etc : Target

-- A value that is bound to a placeholder: an integer as its 64-bit pattern, or a text.
pub data Bound : Type 0 where
  integer : ℕ → Bound
  string : Bytes → Bound

pub record Statement : Type 0 where
  pub target : Target
  pub sql : Bytes
  pub values : List Bound

-- `get<uint64_t>(name)`, `get<unsigned int>(name)` and `get<std::string>(name)` of a fetched row;
-- `none`: it throws.
pub record Row : Type 0 where
  pub number : Bytes → Option ℕ
  pub small : Bytes → Option ℕ
  pub text : Bytes → Option Bytes

-- The databases and their client. `connect` is the construction of a `scoped_db`, whose end is not followed here, `query` gives the
-- rows that `fetch` goes through, and `call` what `fetch(true)` leaves in the result of a procedure. `none`:
-- an exception.
pub record Server (W : Type 0) : Type 0 where
  pub connect : Target → W → Option W
  pub query : Statement → W → Option (List Row × W)
  pub call : Statement → W → Option (Option Row × W)
  pub execute : Statement → W → Option (ℕ × W)

-- What the functions are given from elsewhere.
pub record World (W : Type 0) : Type 0 where
  pub session : Session.Outside
  pub files : Bytes → Option Bytes
  pub write_json : Json → Bytes
  pub server : Server W

-- The arguments of a function and its session's entries, what the databases hold, and the statements that
-- were run so far.
pub record State (W : Type 0) : Type 0 where
  pub cfg : Config
  pub req : Request
  pub res : Response
  pub entries : List NameValue
  pub db : W
  pub trace : List Statement

-- A step goes on with a value, or the function returns, or an exception leaves it.
pub data Ended (W A : Type 0) : Type 0 where
  goes_on : A → State W → Ended W A
  returned : State W → Ended W A
  threw : State W → Ended W A

abbrev pub Action : Type 0 → Type 0 → Type 0
Action W A = State W → Ended W A

module _ {W : Type 0} where
  infixl 5 ◌>>=◌ ◌>>◌
  unfoldable pub ◌>>=◌ : {A B : Type 0} → Action W A → (A → Action W B) → Action W B
  ◌>>=◌ m f s = elim (m s) [ goes_on a t ↦ f a t | returned t ↦ returned t | threw t ↦ threw t ]

  abbrev pub ◌>>◌ : {B : Type 0} → Action W (Unit {0}) → Action W B → Action W B
  m >> k = m >>= λ _. k

  abbrev pub pure : {A : Type 0} → A → Action W A
  pure a s = goes_on a s

  -- `return;`
  abbrev pub leave : {A : Type 0} → Action W A
  leave s = returned s

  -- `if (c) { m; return; }`
  unfoldable pub leave_if : Bool → Action W (Unit {0}) → Action W (Unit {0})
  unfolding ◌>>=◌
  leave_if c m s = elim c [ false ↦ goes_on tt s | true ↦ (m >> leave) s ]

  unfoldable pub or_throw : {A : Type 0} → Option A → Action W A
  or_throw none s = threw s
  or_throw (some a) s = goes_on a s

  unfoldable pub change : (Response → Response) → Action W (Unit {0})
  change f s = goes_on tt (record s { res = f s.res })

  -- `req.param(name)`
  unfoldable pub get_param : Bytes → Action W Bytes
  get_param name s = let (value, req) = param s.req name in goes_on value (record s { req = req })

  -- `sess.get(name)`
  unfoldable pub sess_get : Bytes → Action W Bytes
  sess_get name s =
      let (value, t) =
        Session.get name (record { entries = s.entries; req = s.req; res = s.res }) in
      goes_on value (record s { entries = t.entries })

  unfoldable pub redirect : Bytes → Action W (Unit {0})
  redirect url s = goes_on tt (record s { res = redirect_to s.res url })

  -- `cfg.err_msg(code)`
  unfoldable pub message : ErrorType → Action W Bytes
  message e s = let (m, cfg) = err_msg s.cfg (error_code e) in goes_on m (record s { cfg = cfg })

module _ {W : Type 0} (out : World W) where
  -- What a session leaves of the function's arguments.
  abbrev pub with_session : State W → Session.Session → State W
  with_session s t = record s { entries = t.entries; req = t.req; res = t.res }

  abbrev pub after_session : State W → Loaded → Ended W (Unit {0})
  after_session s (accepted t) = goes_on tt (with_session s t)
  after_session s (refused t) = goes_on tt (with_session s t)
  after_session s (Loaded.threw t) = threw (with_session s t)

  -- `session sess(cfg, req, res)`. The constructor accepts or throws.
  unfoldable pub open_session : Action W (Unit {0})
  open_session s =
      after_session s
        (Session.session out.session s.cfg (record { entries = []; req = s.req; res = s.res }))

  -- `sess.put(name, value)`
  unfoldable pub sess_put : Bytes → Bytes → Action W (Unit {0})
  sess_put name value s = goes_on tt (
      with_session s (
        Session.put out.session s.cfg name value
          (record { entries = s.entries; req = s.req; res = s.res })))

  -- `router::get_file(cfg, res, path)`, whose result is ignored.
  unfoldable pub include : Bytes → Action W (Unit {0})
  include path s = elim (get_file out.files s.cfg s.res path) [
    | none ↦ goes_on tt s
    | some res ↦ goes_on tt (record s { res = res })
  ]

  -- `router::err_msg`, which also logs the message.
  unfoldable pub error_page : ErrorType → Action W (Unit {0})
  unfolding include message
  error_page e = do
    change λ res. record res { content = [] }
    include (codes "dir_include_header.html")
    m ← message e
    change λ res. record res {
      content = res.content ++ (codes "<h2>Error : " ++ (m ++ codes "</h2>"));
    }
    include (codes "dir_include_footer.html")
    change λ res. record res { content_extension = codes "html" }

  -- The answer of a JSONP function.
  unfoldable pub send_jsonp : Json → Action W (Unit {0})
  send_jsonp json = change λ res. record res {
    content = res.content ++ (codes "_(" ++ (out.write_json json ++ codes ");"));
    content_extension = codes "js";
  }

  unfoldable pub connect : Target → Action W (Unit {0})
  connect t s = elim (out.server.connect t s.db) [
    | none ↦ threw s
    | some db ↦ goes_on tt (record s { db = db })
  ]

  abbrev pub after_run : {A : Type 0} → State W → Statement → Option (A × W) → Ended W A
  after_run s st none = threw (record s { trace = s.trace ++ st ∷ [] })
  after_run s st (some (a, db)) = goes_on a (record s { db = db; trace = s.trace ++ st ∷ [] })

  -- A statement is prepared, its values are bound, and it is run.
  unfoldable pub query : Target → Bytes → List Bound → Action W (List Row)
  query t sql values s =
      let st : Statement = record { target = t; sql = sql; values = values } in
      after_run s st (out.server.query st s.db)

  unfoldable pub call : Target → Bytes → List Bound → Action W (Option Row)
  call t sql values s =
      let st : Statement = record { target = t; sql = sql; values = values } in
      after_run s st (out.server.call st s.db)

  unfoldable pub execute : Target → Bytes → List Bound → Action W ℕ
  execute t sql values s =
      let st : Statement = record { target = t; sql = sql; values = values } in
      after_run s st (out.server.execute st s.db)
