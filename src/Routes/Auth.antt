-- ===== src/Routes/Auth.antt =====
-- `auth` of src/route_dir_user.cpp: only a user whom the database has is signed in.
use waspp.Base.{
  subst, sym, ℕ, ◌≡◌, refl, ◌⊎◌, inl, inr, false, List, [], ◌∷◌, ◌==◌, Bytes, codes, equal, length,
  ap, ◌∙◌, arith,
}
use waspp.Request.{Request, NameValue, lookup}
use waspp.Response.{Response, redirect_to}
use waspp.Response.Decimal.{to_string}
use waspp.Config.{Config}
use waspp.Routes.{
  get_param, State, World, Row, Target, ErrorType, integer, string, by_text, redirect,
  username_not_found, auth_failed,
}
use waspp.Routes.Ends.{EndsIn}
use waspp.Routes.Tidy.{statement}
use waspp.Routes.Triple.{
  Triple, ◌>>=-Triple◌, given-Triple, pure-Triple, map-Triple, Outcome-EndsIn,
}
use waspp.Routes.Sessions.{
  Names, Names-IsSignedIn, put_user-Names, put_other-Names, open_session-Configured,
}
use waspp.Routes.SignIn.{
  Found, Rows, WasFound, Waits, E, error_page-C, get_param-Waits, get_passwd-Waits, leave_if-Waits,
  connect-Waits, query-Waits, or_throw-Waits,
}
use waspp.Routes.Forum.{first_number}
use waspp.Routes.User.{require, find_user, sign_in, auth}
use waspp.Routes.Table.{start}

username-other : equal (codes "username") (codes "userid") ≡ false
unfolding equal
username-other = refl

module _ {W : Type 0} (out : World W) (cfg : Config) (cs : List NameValue) (passwd : Bytes) where
  abbrev R : State W → Type 0
  R = E out cfg cs passwd

  abbrev Before : State W → Type 0
  Before = Waits out cfg cs passwd

  abbrev IsFound : ℕ → Type 0
  IsFound = Found out (out.session.md5_digest passwd)

  require-Before :
      (name : Bytes) (e : ErrorType) → Triple Before (λ x t. Before t) R (require out name e)
  unfolding require
  require-Before name e = get_param-Waits out cfg cs passwd name >>=-Triple λ value.
      map-Triple (λ x t p. p.0) (leave_if-Waits out cfg cs passwd _ _ (error_page-C out cs e))

  number-Before :
      (name : Bytes) (rows : List Row) → Triple Before (λ x. Before) R (first_number name rows)
  unfolding first_number
  number-Before name [] = pure-Triple 0
  number-Before name (r ∷ rs) = or_throw-Waits out cfg cs passwd (r.number name)

  Rows-Found :
      (t : Target) (userid : ℕ) (rows : List Row)
      → Rows out
          (statement t
            (codes "SELECT userid FROM users WHERE userid = ? AND passwd = ?")
            (integer userid ∷ string (out.session.md5_digest passwd) ∷ []))
          rows
      → (length rows == 0) ≡ false
      → IsFound userid
  Rows-Found t userid [] h full = absurd (ground arith)
  Rows-Found t userid (r ∷ rs) h full = record { target = t; row = r; rows = rs; found = h }

  find_user-Before :
      Triple Before
        (λ userid t. Before t × IsFound userid)
        R
        (find_user out (out.session.md5_digest passwd))
  unfolding find_user
  find_user-Before = get_param-Waits out cfg cs passwd (codes "userid") >>=-Triple λ shard_key.
      connect-Waits out cfg cs passwd (by_text shard_key) >>=-Triple λ _.
      get_param-Waits out cfg cs passwd (codes "username") >>=-Triple λ username.
      query-Waits out cfg cs passwd _ _ _ >>=-Triple λ named. given-Triple λ came.
        leave_if-Waits out cfg cs passwd _ _ (error_page-C out cs username_not_found)
        >>=-Triple λ _. given-Triple λ is_named.
          number-Before (codes "userid") named >>=-Triple λ userid.
          query-Waits out cfg cs passwd _ _ _ >>=-Triple λ found. given-Triple λ came_too.
            leave_if-Waits out cfg cs passwd _ _ (error_page-C out cs auth_failed) >>=-Triple λ _.
            given-Triple
              λ is_full. record { run = λ s p. (p, Rows-Found _ userid found came_too is_full) }

  param-Names :
      (user : Bytes)
      → Triple (Names out cfg user) (λ x. Names out cfg user) R (get_param (codes "username"))
  unfolding get_param
  param-Names user = record {
    run = λ s p. record { same_cfg = p.same_cfg; named = p.named; signed = p.signed };
  }

  -- What follows once the user was found.
  sign_in-R : (userid : ℕ) → IsFound userid → Triple Before (λ x. R) R (sign_in out userid)
  unfolding sign_in redirect redirect_to
  sign_in-R userid found =
      open_session-Configured out cfg R Before (λ s p. p.same_cfg)
        (λ s t p e. inl (ap (λ res. res.cookies) e ∙ p.cookies))
      >>=-Triple λ _. put_user-Names out cfg (to_string userid) >>=-Triple λ _.
          param-Names (to_string userid) >>=-Triple λ username.
          put_other-Names out cfg (to_string userid) (codes "username") username username-other
          >>=-Triple λ _. record {
            run = λ s p. inr (record {
              userid = userid;
              found = found;
              signed_in = Names-IsSignedIn out cfg (to_string userid) s p;
            });
          }

  auth-R : Triple Before (λ x. R) R (auth out)
  unfolding auth
  auth-R = require-Before (codes "username") _ >>=-Triple λ _.
      require-Before (codes "passwd") _ >>=-Triple λ _.
      get_passwd-Waits out cfg cs passwd >>=-Triple λ text. given-Triple λ same.
        subst
          (λ x.
            Triple Before (λ u t. Before t × IsFound u) R
              (find_user out (out.session.md5_digest x)))
          (sym same) find_user-Before
        >>=-Triple λ userid. given-Triple λ found. sign_in-R userid found

-- However `auth` ends, it left the response's cookies as they were, or it set the session's cookie to
-- a signed archive whose entries name a user, for whom and for the digest of the password of the request
-- the database had given a row.
pub auth-WasFound :
    {W : Type 0} (out : World W) (db : W) (cfg : Config) (req : Request) (res : Response)
    → EndsIn
        (λ t.
          (t.res.cookies ≡ res.cookies)
          ⊎ WasFound out cfg res.cookies (lookup (codes "passwd") req.params).0 t.res.cookies)
        (auth out (start db cfg req res))
auth-WasFound out db cfg req res =
    let passwd = (lookup (codes "passwd") req.params).0 in
    let begun : Waits out cfg res.cookies passwd (start db cfg req res) = record {
      same_cfg = refl;
      cookies = refl;
      same_passwd = refl;
    } in
    Outcome-EndsIn (E out cfg res.cookies passwd) (auth out (start db cfg req res))
      ((auth-R out cfg res.cookies passwd).run (start db cfg req res) begun)
