-- ===== src/Session/Users.antt =====
-- Which user a session belongs to.
use waspp.Base.{
  ◌++◌, Bool, if◌then◌else◌, ◌≡◌, refl, sym, ap, ◌∙◌, true, false, List, Bytes, codes, equal,
  equal_iff, is_empty, some, none, Option, arith,
}
use waspp.Request.{NameValue, find_value, lookup}
use waspp.Request.Lookup.{lookup_frame}
use waspp.Response.Decimal.{to_string}
use waspp.Response.Cookies.{find_value-set_entry}
use waspp.Utility.Percent.{percent_decode}
use waspp.Config.{Config}
use waspp.Session.{
  Outside, Session, Loaded, accepted, refused, threw, get, sign, serialize_and_set, put, load,
  create, update, session,
}
use waspp.Session.Signed.{load-IsSigned, find_value-full}

-- The request carries a signed cookie, whose entries name a user.
pub record IsUser (out : Outside) (cfg : Config) (s : Session) (userid : Bytes) : Type 0 where
  pub text : Bytes
  pub entries : List NameValue
  pub signed : find_value cfg.sess_cookie s.req.cookies ≡ some (sign out cfg text)
  pub read : out.read_archive (percent_decode text) ≡ some entries
  pub named : find_value (codes "userid") entries ≡ some userid

abbrev user_of : Session → Option Bytes
user_of s = find_value (codes "userid") s.entries

pub put-user :
    (out : Outside) (cfg : Config) (name value : Bytes) (s : Session)
    → equal name (codes "userid") ≡ false
    → user_of (put out cfg name value s) ≡ user_of s
unfolding put
put-user out cfg name value s h =
    find_value-set_entry name (codes "userid") value s.entries ∙ ground arith

get-user :
    (name : Bytes) (s : Session)
    → equal name (codes "userid") ≡ false
    → user_of (get name s).1 ≡ user_of s
unfolding get
get-user name s h =
    lookup_frame name (codes "userid") s.entries (ground (arith, equal_iff name (codes "userid")))

tm-name : equal (codes "last_tm") (codes "userid") ≡ false
unfolding equal
tm-name = refl

id-name : equal (codes "sess_id") (codes "userid") ≡ false
unfolding equal
id-name = refl

either-user :
    (c : Bool) (a b : Session) (user : Option Bytes)
    → user_of a ≡ user
    → user_of b ≡ user
    → user_of (if c then a else b) ≡ user
either-user true a b user h k = h
either-user false a b user h k = k

-- An update keeps the user.
pub update-user :
    (out : Outside) (cfg : Config) (s : Session) → user_of (update out cfg s) ≡ user_of s
unfolding update serialize_and_set
update-user out cfg s =
    let id = out.md5_digest (out.uuid ++ s.req.remote_addr) in
    let s' = (get (codes "last_tm") s).1 in
    let read = get-user (codes "last_tm") s tm-name in
    either-user _ s' _ (user_of s) read (
      put-user out cfg (codes "last_tm") (to_string out.now) (put out cfg (codes "sess_id") id s')
        tm-name
      ∙ put-user out cfg (codes "sess_id") id s' id-name
      ∙ read)

-- A session that `create` makes has no user.
create-user : (out : Outside) (cfg : Config) (s : Session) → user_of (create out cfg s) ≡ none
unfolding create find_value equal
create-user out cfg s = refl

accepted-IsUser :
    (out : Outside) (cfg : Config) (s s' : Session) (result : Loaded)
    → load out cfg s ≡ result
    → (elim result [
      | accepted t ↦ accepted (update out cfg t)
      | refused t ↦ accepted (create out cfg t)
      | threw t ↦ threw t
    ])
      ≡ accepted s'
    → is_empty (lookup (codes "userid") s'.entries).0 ≡ false
    → IsUser out cfg s (lookup (codes "userid") s'.entries).0
accepted-IsUser out cfg s s' (accepted t) e k h =
    let same : update out cfg t ≡ s' = cc in
    let signed = load-IsSigned out cfg s t e in
    let found = find_value-full (codes "userid") s'.entries h in
    record {
      text = signed.text;
      entries = t.entries;
      signed = signed.signed;
      read = signed.read;
      named = sym (update-user out cfg t) ∙ ap user_of same ∙ found;
    }
accepted-IsUser out cfg s s' (refused t) e k h =
    let same : create out cfg t ≡ s' = cc in
    let found = find_value-full (codes "userid") s'.entries h in
    let none_found = sym (ap user_of same) ∙ create-user out cfg t in
    absurd (ground (arith, found, none_found))
accepted-IsUser out cfg s s' (threw t) e k h = absurd (ground arith)

-- A session in which the user's number is not empty was loaded from a signed cookie that holds it.
pub session-IsUser :
    (out : Outside) (cfg : Config) (s s' : Session)
    → session out cfg s ≡ accepted s'
    → is_empty (lookup (codes "userid") s'.entries).0 ≡ false
    → IsUser out cfg s (lookup (codes "userid") s'.entries).0
unfolding session
session-IsUser out cfg s s' k h = accepted-IsUser out cfg s s' (load out cfg s) refl k h
