-- ===== src/Routes/Confined/Steps.antt =====
-- Which files the steps of src/route_dir_*.cpp depend on: two file systems at the same document root.
use waspp.Base.{
  ◌≡◌, refl, sym, ap, ◌∙◌, Bool, true, false, Bytes, Option, none, some, Option-cases, inl, inr,
  List,
}
use waspp.Response.{Response}
use waspp.Config.{Config}
use waspp.Config.Init.{err_msg, find_err}
use waspp.Router.{full_path, get_file}
use waspp.Handler.Confined.{get_file-files}
use waspp.Session.{Loaded, accepted, refused}
use waspp.Routes.{
  Action, State, World, Ended, Statement, Target, Bound, ErrorType, goes_on, returned, threw, ◌>>=◌,
  pure, leave_if, or_throw, change, get_param, sess_get, redirect, message, open_session, sess_put,
  include, error_code, send_jsonp, connect, query, call, execute, after_session, after_run,
}
use waspp.Routes.Trees.{Json}
use waspp.Routes.Ends.{EndsIn, Keeps, ◌>>=-Keeps◌, pure-Keeps, leave_if-Keeps, or_throw-Keeps}

full_path-doc_root :
    (c d : Config) (path : Bytes) → c.doc_root ≡ d.doc_root → full_path c path ≡ full_path d path
unfolding full_path
full_path-doc_root c d path e = rw (full_path, e)

err_msg-doc_root : (c : Config) (code : _) → (err_msg c code).1.doc_root ≡ c.doc_root
unfolding err_msg
err_msg-doc_root c code = elim (Option-cases (find_err code c.err)) [
  | inl missing ↦ rw (err_msg, missing)
  | inr (m, found) ↦ rw (err_msg, found)
]

module _ {W : Type 0} (base : Config) where
  -- The configuration at hand has the document root of the first one.
  abbrev pub Rooted : State W → Type 0
  Rooted s = s.cfg.doc_root ≡ base.doc_root

  -- Two actions do the same at that document root, which the first one keeps.
  pub record Same {A : Type 0} (m m' : Action W A) : Type 0 where
    pub same : (s : State W) → Rooted s → m s ≡ m' s
    pub kept : Keeps Rooted m

  after-same :
      {A B : Type 0} (e : Ended W A) (f f' : A → Action W B)
      → EndsIn Rooted e
      → ((a : A) (t : State W) → Rooted t → f a t ≡ f' a t)
      → (elim e as (λ x. Ended W B) [
        | goes_on a t ↦ f a t
        | returned t ↦ returned t
        | threw t ↦ threw t
      ])
        ≡ (elim e as (λ x. Ended W B) [
          | goes_on a t ↦ f' a t
          | returned t ↦ returned t
          | threw t ↦ threw t
        ])
  after-same (goes_on a s) f f' h k = k a s h
  after-same (returned s) f f' h k = refl
  after-same (threw s) f f' h k = refl

module _ {W : Type 0} {base : Config} where
  infixr 5 ◌>>=-Same◌
  pub ◌>>=-Same◌ :
      {A B : Type 0} {m m' : Action W A} {f f' : A → Action W B}
      → Same base m m'
      → ((a : A) → Same base (f a) (f' a))
      → Same base (m >>= f) (m' >>= f')
  unfolding ◌>>=◌
  ◌>>=-Same◌ {B = B} {m = m} {f = f} {f' = f'} h k = record {
    same = λ s e.
        after-same base (m s) f f' (h.kept.ends s e) (λ a. (k a).same)
        ∙ ap
            (λ x. elim x as (λ y. Ended W B) [
              | goes_on a t ↦ f' a t
              | returned t ↦ returned t
              | threw t ↦ threw t
            ])
            (h.same s e);
    kept = h.kept >>=-Keeps λ a. (k a).kept;
  }

  -- An action that has nothing to do with files.
  pub unchanged : {A : Type 0} {m : Action W A} → Keeps (Rooted base) m → Same base m m
  unchanged h = record { same = λ s e. refl; kept = h }

  pub pure-Same : {A : Type 0} (a : A) → Same {W = W} base (pure a) (pure a)
  pure-Same a = unchanged (pure-Keeps a)

  pub leave_if-Same :
      (c : Bool) {m m' : Action W (Unit {0})}
      → Same base m m'
      → Same base (leave_if c m) (leave_if c m')
  unfolding leave_if ◌>>=◌
  leave_if-Same false h = unchanged (leave_if-Keeps false h.kept)
  leave_if-Same true {m = m} {m' = m'} h = record {
    same = λ s e.
        ap
          (λ x. elim x as (λ y. Ended W (Unit {0})) [
            | goes_on a t ↦ returned t
            | returned t ↦ returned t
            | threw t ↦ threw t
          ])
          (h.same s e);
    kept = leave_if-Keeps true h.kept;
  }

  pub or_throw-Same : {A : Type 0} (a : Option A) → Same {W = W} base (or_throw a) (or_throw a)
  or_throw-Same a = unchanged (or_throw-Keeps a)

  pub change-Same : (f : Response → Response) → Same {W = W} base (change f) (change f)
  unfolding change
  change-Same f = unchanged (record { ends = λ s e. e })

  pub get_param-Same : (name : Bytes) → Same {W = W} base (get_param name) (get_param name)
  unfolding get_param
  get_param-Same name = unchanged (record { ends = λ s e. e })

  pub sess_get-Same : (name : Bytes) → Same {W = W} base (sess_get name) (sess_get name)
  unfolding sess_get
  sess_get-Same name = unchanged (record { ends = λ s e. e })

  pub redirect-Same : (url : Bytes) → Same {W = W} base (redirect url) (redirect url)
  unfolding redirect
  redirect-Same url = unchanged (record { ends = λ s e. e })

  pub message-Same : (e : ErrorType) → Same {W = W} base (message e) (message e)
  unfolding message
  message-Same t = unchanged (record { ends = λ s e. err_msg-doc_root s.cfg (error_code t) ∙ e })

module _ {W : Type 0} (out : World W) (files : Bytes → Option Bytes) (base : Config) where
  -- What the functions are given, with another file system.
  abbrev pub other : World W
  other = record out { files = files }

  after_session-EndsIn :
      (s : State W) (result : Loaded)
      → Rooted base s
      → EndsIn (Rooted base) (after_session out s result)
  after_session-EndsIn s (accepted t) e = e
  after_session-EndsIn s (refused t) e = e
  after_session-EndsIn s (Loaded.threw t) e = e

  pub open_session-Same : Same base (open_session out) (open_session other)
  unfolding open_session
  open_session-Same = record {
    same = λ s e. refl;
    kept = record { ends = λ s e. after_session-EndsIn s _ e };
  }

  pub sess_put-Same :
      (name value : Bytes) → Same base (sess_put out name value) (sess_put other name value)
  unfolding sess_put
  sess_put-Same name value = record { same = λ s e. refl; kept = record { ends = λ s e. e } }

  -- The two file systems agree on a file that the functions put into a page.
  abbrev pub Agrees : Bytes → Type 0
  Agrees page = out.files (full_path base page) ≡ files (full_path base page)

  include-Rooted :
      (s : State W) (path : Bytes) → Rooted base s → EndsIn (Rooted base) (include out path s)
  unfolding include
  include-Rooted s path e = elim (Option-cases (get_file out.files s.cfg s.res path)) [
    | inl missing ↦ rw (EndsIn, include, missing) e
    | inr (res, found) ↦ rw (EndsIn, include, found) e
  ]

  pub include-Same :
      (path : Bytes) → Agrees path → Same base (include out path) (include other path)
  unfolding include
  include-Same path agrees = record {
    same = λ s e.
        let there = full_path-doc_root s.cfg base path e in
        ap
          (λ found. elim found as (λ y. Ended W (Unit {0})) [
            | none ↦ goes_on tt s
            | some res ↦ goes_on tt (record s { res = res })
          ])
          (get_file-files out.files files s.cfg s.res path
            (ap out.files there ∙ agrees ∙ sym (ap files there)));
    kept = record { ends = λ s e. include-Rooted s path e };
  }

  pub send_jsonp-Same : (json : Json) → Same base (send_jsonp out json) (send_jsonp other json)
  unfolding send_jsonp
  send_jsonp-Same json = change-Same _

  connect-Rooted :
      (s : State W) (t : Target) → Rooted base s → EndsIn (Rooted base) (connect out t s)
  unfolding connect
  connect-Rooted s t e = elim (Option-cases (out.server.connect t s.db)) [
    | inl refused_it ↦ rw (EndsIn, connect, refused_it) e
    | inr (db, made) ↦ rw (EndsIn, connect, made) e
  ]

  pub connect-Same : (t : Target) → Same base (connect out t) (connect other t)
  unfolding connect
  connect-Same t = record {
    same = λ s e. refl;
    kept = record { ends = λ s e. connect-Rooted s t e };
  }

  after_run-EndsIn :
      {A : Type 0} (s : State W) (st : Statement) (result : Option (A × W))
      → Rooted base s
      → EndsIn (Rooted base) (after_run out s st result)
  after_run-EndsIn s st none e = e
  after_run-EndsIn s st (some (a, db)) e = e

  pub query-Same :
      (t : Target) (sql : Bytes) (values : List Bound)
      → Same base (query out t sql values) (query other t sql values)
  unfolding query
  query-Same t sql values = record {
    same = λ s e. refl;
    kept = record { ends = λ s e. after_run-EndsIn s _ _ e };
  }

  pub call-Same :
      (t : Target) (sql : Bytes) (values : List Bound)
      → Same base (call out t sql values) (call other t sql values)
  unfolding call
  call-Same t sql values = record {
    same = λ s e. refl;
    kept = record { ends = λ s e. after_run-EndsIn s _ _ e };
  }

  pub execute-Same :
      (t : Target) (sql : Bytes) (values : List Bound)
      → Same base (execute out t sql values) (execute other t sql values)
  unfolding execute
  execute-Same t sql values = record {
    same = λ s e. refl;
    kept = record { ends = λ s e. after_run-EndsIn s _ _ e };
  }
