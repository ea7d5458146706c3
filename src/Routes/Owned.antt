-- ===== src/Routes/Owned.antt =====
-- For whom src/route_dir_forum.cpp writes entries when the client was signed in by
-- src/route_dir_user.cpp.
use waspp.Base.{
  ◌^◌, ◌<◌, ◌≡◌, sym, ap, ◌∙◌, subst, inl, inr, true, List, [], ◌++◌, Bytes, codes, length, take,
  some, All, length-append, take_append, arith,
}
use waspp.Request.{Request, NameValue, find_value}
use waspp.Response.{Response}
use waspp.Response.Decimal.{to_string}
use waspp.Config.{Config}
use waspp.Config.Init.{strtoull}
use waspp.Strtol.Written.{strtoull-to_string}
use waspp.Utility.Percent.{percent_encode, percent_decode}
use waspp.Router.{Route}
use waspp.Handler.Length.{Unframed}
use waspp.Session.{Outside, Session, sign}
use waspp.Session.Returned.{decode-encode}
use waspp.Session.Users.{IsUser}
use waspp.Routes.{State, World}
use waspp.Routes.Ends.{EndsIn, EndsIn-map}
use waspp.Routes.SignIn.{WasFound}
use waspp.Routes.Admitted.{IsReadBack}
use waspp.Routes.Authorized.{IsAuthorized, IsFor, is_forum, run_route-IsAuthorized}
use waspp.Routes.Table.{run_route, start}

-- A signed text is the only one with that signature behind it.
sign-injective :
    (out : Outside) (cfg : Config) (s t : Bytes)
    → ((text : Bytes) → length (out.md5_digest text) ≡ 32)
    → sign out cfg s ≡ sign out cfg t
    → s ≡ t
unfolding sign
sign-injective out cfg s t sizes e =
    let d = out.md5_digest (s ++ cfg.encrypt_key) in
    let d' = out.md5_digest (t ++ cfg.encrypt_key) in
    let same : length s ≡ length t = omega (
      arith,
      ap length e,
      length-append s d,
      length-append t d',
      sizes (s ++ cfg.encrypt_key),
      sizes (t ++ cfg.encrypt_key),
    ) in
    sym (take_append s d)
    ∙ ap (take (length s)) e
    ∙ ap (λ n. take n (t ++ d')) same
    ∙ take_append t d'

-- The user of a cookie that was signed for some entries is the one that they name.
user_unique :
    (out : Outside) (cfg : Config) (s : Session) (entries : List NameValue) (userid other : Bytes)
    → ((text : Bytes) → length (out.md5_digest text) ≡ 32)
    → IsReadBack out entries
    → find_value (codes "userid") entries ≡ some userid
    → find_value cfg.sess_cookie s.req.cookies
      ≡ some (sign out cfg (percent_encode (out.write_archive entries)))
    → IsUser out cfg s other
    → other ≡ userid
user_unique out cfg s entries userid other sizes archive named sent user =
    let text = percent_encode (out.write_archive entries) in
    let signs : sign out cfg user.text ≡ sign out cfg text = ground (arith, user.signed, sent) in
    let decoded : percent_decode user.text ≡ out.write_archive entries =
      ap percent_decode (sign-injective out cfg user.text text sizes signs)
      ∙ decode-encode (out.write_archive entries) archive.bytes in
    let reads = sym (ap out.read_archive decoded ∙ archive.back) ∙ user.read in
    let same : user.entries ≡ entries = ground (arith, reads) in
    let finds = sym (ap (find_value (codes "userid")) same ∙ named) ∙ user.named in
    ground (arith, finds)

module _ {W : Type 0} (out : World W) where
  -- Suppose that `auth` signed in a user who was found, whose number is below 2 ^ 64, that digests have 32
  -- bytes, that the archive of the session's entries consists of bytes and is read back, and that a
  -- request carries the cookie. Then, however a function of the forum ends, every statement that wrote an
  -- entry bound the number with which the database had found the user.
  pub run_route-IsFor :
      (route : Route) (db : W) (cfg : Config) (req : Request) (res : Response)
      (cs cookies : List NameValue) (passwd : Bytes) (found : WasFound out cfg cs passwd cookies)
      → is_forum route ≡ true
      → Unframed res
      → found.userid < 2 ^ 64
      → ((text : Bytes) → length (out.session.md5_digest text) ≡ 32)
      → IsReadBack out.session found.signed_in.entries
      → find_value cfg.sess_cookie req.cookies ≡ find_value cfg.sess_cookie cookies
      → EndsIn (λ t. All (IsFor found.userid) t.trace) (run_route out route (start db cfg req res))
  run_route-IsFor route db cfg req res cs cookies passwd found forum unframed small sizes archive
        sent =
      EndsIn-map (IsAuthorized out cfg req res) (λ t. All (IsFor found.userid) t.trace)
        (run_route out route (start db cfg req res)) owned
        (run_route-IsAuthorized out route db cfg req res forum unframed)
    where
      owned : (t : State W) → IsAuthorized out cfg req res t → All (IsFor found.userid) t.trace
      owned t (inl none_run) = subst (All (IsFor found.userid)) (sym none_run) tt
      owned t (inr h) =
          let same : h.userid ≡ to_string found.userid =
            user_unique out.session cfg (record { entries = []; req = req; res = res })
              found.signed_in.entries (to_string found.userid) h.userid sizes archive
              found.signed_in.named (sent ∙ found.signed_in.signed) h.user in
          let number = ap strtoull same ∙ strtoull-to_string found.userid small in
          subst (λ n. All (IsFor n) t.trace) number h.owned
