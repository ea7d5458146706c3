-- ===== src/Routes/SignIn.antt =====
-- Whom `auth` of src/route_dir_user.cpp signs in.
use waspp.Base.{
  subst, equal, equal_iff, Bool, true, false, ◌∙◌, Bool-cases, Option-cases, Option, none, sym, ap,
  arith, ℕ, ◌≡◌, refl, ◌⊎◌, inl, inr, List, [], ◌∷◌, Bytes, codes, some,
}
use waspp.Request.{NameValue, lookup}
use waspp.Response.Decimal.{to_string}
use waspp.Config.{Config}
use waspp.Routes.Sessions.{IsSignedIn}
use waspp.Routes.Ends.{Keeps, ◌>>=-Keeps◌, EndsIn}
use waspp.Request.{lookup_again, param, lookup-eq}
use waspp.Request.Lookup.{lookup_frame, or_empty}
use waspp.Router.{get_file}
use waspp.Response.{Response}
use waspp.Routes.{
  leave, ◌>>◌, after_run, Statement, Bound, ErrorType, ◌>>=◌, leave_if, or_throw, change, message,
  include, error_page, connect, query, get_param, Ended, goes_on, returned, threw, Action, State,
  World, Row, Target, integer, string,
}
use waspp.Routes.Tidy.{statement}
use waspp.Routes.Triple.{Triple, Outcome}

-- The rows of a query came from the database.
pub record Rows {W : Type 0} (out : World W) (st : Statement) (rows : List Row) : Type 0 where
  pub before : W
  pub after : W
  pub came : out.server.query st before ≡ some (rows, after)

-- The database has a row for the user's number and the digest of the password.
pub record Found {W : Type 0} (out : World W) (passwd : Bytes) (userid : ℕ) : Type 0 where
  pub target : Target
  pub row : Row
  pub rows : List Row
  pub found :
      Rows out
        (statement target
          (codes "SELECT userid FROM users WHERE userid = ? AND passwd = ?")
          (integer userid ∷ string passwd ∷ []))
        (row ∷ rows)

get_file-cookies :
    (files : Bytes → Option Bytes) (cfg : Config) (res res' : Response) (path : Bytes)
    → get_file files cfg res path ≡ some res'
    → res'.cookies ≡ res.cookies
unfolding get_file
get_file-cookies files cfg res res' path e = ground arith

lookup_other : (n m : Bytes) (xs : List NameValue) → (lookup m (lookup n xs).1).0 ≡ (lookup m xs).0
lookup_other n m xs = elim (Bool-cases (equal n m)) [
  | inl same ↦
      subst (λ k. (lookup k (lookup n xs).1).0 ≡ (lookup k xs).0) ((equal_iff n m).0 same)
        (lookup_again n xs)
  | inr other ↦
      let frame = lookup_frame n m xs (ground (arith, equal_iff n m)) in
      lookup-eq m (lookup n xs).1 ∙ ap or_empty frame ∙ sym (lookup-eq m xs)
]

-- The end of a response's change that leaves its cookies.
module _ {W : Type 0} (out : World W) (cs : List NameValue) where
  abbrev pub C : State W → Type 0
  C t = t.res.cookies ≡ cs

  include-C : (path : Bytes) → Keeps C (include out path)
  unfolding include get_file
  include-C path = record {
    ends = λ s p. elim (Option-cases (get_file out.files s.cfg s.res path)) [
      | inl missing ↦ rw (EndsIn, include, missing) p
      | inr (res, found) ↦
          let kept : res.cookies ≡ s.res.cookies =
            get_file-cookies out.files s.cfg s.res res path found in
          rw (EndsIn, include, found) (kept ∙ p)
    ];
  }

  pub error_page-C : (e : ErrorType) → Keeps C (error_page out e)
  unfolding error_page message change
  error_page-C e = record { ends = λ s p. p } >>=-Keeps λ _.
      include-C (codes "dir_include_header.html") >>=-Keeps λ _.
      record { ends = λ s p. p } >>=-Keeps λ m. record { ends = λ s p. p } >>=-Keeps λ _.
      include-C (codes "dir_include_footer.html") >>=-Keeps λ _. record { ends = λ s p. p }

module _ {W : Type 0} (out : World W) (cfg : Config) (cs : List NameValue) (passwd : Bytes) where
  -- A user who was found was signed in.
  pub record WasFound (cookies : List NameValue) : Type 0 where
    pub userid : ℕ
    pub found : Found out (out.session.md5_digest passwd) userid
    pub signed_in : IsSignedIn out.session cfg (to_string userid) cookies

  -- The response's cookies are those it had, or a user who was found was signed in.
  abbrev pub E : State W → Type 0
  E t = (t.res.cookies ≡ cs) ⊎ WasFound t.res.cookies

  pub record Waits (t : State W) : Type 0 where
    pub same_cfg : t.cfg ≡ cfg
    pub cookies : t.res.cookies ≡ cs
    pub same_passwd : (lookup (codes "passwd") t.req.params).0 ≡ passwd

  pub get_param-Waits : (name : Bytes) → Triple Waits (λ v. Waits) E (get_param name)
  unfolding get_param param
  get_param-Waits name = record {
    run = λ s p. record {
      same_cfg = p.same_cfg;
      cookies = p.cookies;
      same_passwd = lookup_other name (codes "passwd") s.req.params ∙ p.same_passwd;
    };
  }

  pub get_passwd-Waits : Triple Waits (λ v t. Waits t × (v ≡ passwd)) E (get_param (codes "passwd"))
  unfolding get_param param
  get_passwd-Waits = record {
    run = λ s p. ((get_param-Waits (codes "passwd")).run s p, p.same_passwd);
  }

  left-E :
      {A : Type 0} (M : A → State W → Type 0) (e : Ended W (Unit {0})) (s : State W)
      → EndsIn (C out cs) e
      → Outcome {A = A} M E (((λ t. e) >> leave {A = A}) s)
  unfolding ◌>>=◌
  left-E M (goes_on a t) s h = inl h
  left-E M (returned t) s h = inl h
  left-E M (threw t) s h = inl h

  pub leave_if-Waits :
      (c : Bool) (m : Action W (Unit {0}))
      → Keeps (C out cs) m
      → Triple Waits (λ x t. Waits t × (c ≡ false)) E (leave_if c m)
  unfolding leave_if ◌>>=◌
  leave_if-Waits false m h = record { run = λ s p. (p, refl) }
  leave_if-Waits true m h = record { run = λ s p. left-E _ (m s) s (h.ends s p.cookies) }

  pub connect-Waits : (t : Target) → Triple Waits (λ x. Waits) E (connect out t)
  unfolding connect
  connect-Waits t = record {
    run = λ s p. elim (Option-cases (out.server.connect t s.db)) [
      | inl none_left ↦ rw (Outcome, connect, none_left) (inl p.cookies)
      | inr (db, made) ↦
          rw (Outcome, connect, made)
            (record { same_cfg = p.same_cfg; cookies = p.cookies; same_passwd = p.same_passwd })
    ];
  }

  ran-Waits :
      (st : Statement) (s : State W) (result : Option (List Row × W))
      → out.server.query st s.db ≡ result
      → Waits s
      → Outcome (λ rows t. Waits t × Rows out st rows) E (after_run out s st result)
  ran-Waits st s none e p = inl p.cookies
  ran-Waits st s (some (rows, db)) e p = (
    record { same_cfg = p.same_cfg; cookies = p.cookies; same_passwd = p.same_passwd },
    record { before = s.db; after = db; came = e },
  )

  pub query-Waits :
      (t : Target) (sql : Bytes) (values : List Bound)
      → Triple Waits
          (λ rows s. Waits s × Rows out (statement t sql values) rows)
          E
          (query out t sql values)
  unfolding query
  query-Waits t sql values = record {
    run = λ s p.
        ran-Waits (statement t sql values) s (out.server.query (statement t sql values) s.db) refl
          p;
  }

  pub or_throw-Waits : {A : Type 0} (a : Option A) → Triple Waits (λ x. Waits) E (or_throw a)
  unfolding or_throw
  or_throw-Waits none = record { run = λ s p. inl p.cookies }
  or_throw-Waits (some a) = record { run = λ s p. p }
