-- ===== src/Session/Headers.antt =====
-- A session changes a response's cookies, and none of its headers.
use waspp.Base.{
  ◌-◌, take, length, ◌≡◌, refl, ◌∙◌, List, Bytes, codes, Option-cases, inl, inr, arith,
}
use waspp.Request.{NameValue, cookie}
use waspp.Response.{set_cookie, delete_cookie}
use waspp.Config.{Config}
use waspp.Utility.Percent.{percent_decode}
use waspp.Session.{
  Outside, Session, Loaded, accepted, refused, threw, get, get_curr_ua, serialize_and_set, put,
  check_ua, check_ip, check_entries, read_entries, check_digest, load, create, update, session,
}

abbrev pub headers_of : Loaded → List NameValue
headers_of (accepted s) = s.res.headers
headers_of (refused s) = s.res.headers
headers_of (threw s) = s.res.headers

pub put-headers :
    (out : Outside) (cfg : Config) (name value : Bytes) (s : Session)
    → (put out cfg name value s).res.headers ≡ s.res.headers
unfolding put set_cookie
put-headers out cfg name value s = refl

check_ua-headers : (cfg : Config) (s : Session) → headers_of (check_ua cfg s) ≡ s.res.headers
unfolding check_ua get get_curr_ua delete_cookie set_cookie
check_ua-headers cfg s = ground arith

check_ip-headers : (cfg : Config) (s : Session) → headers_of (check_ip cfg s) ≡ s.res.headers
unfolding check_ip get delete_cookie set_cookie
check_ip-headers cfg s =
    ground (arith, check_ua-headers cfg s, check_ua-headers cfg (get (codes "last_ip") s).1)

check_entries-headers :
    (out : Outside) (cfg : Config) (s : Session)
    → headers_of (check_entries out cfg s) ≡ s.res.headers
unfolding check_entries get delete_cookie set_cookie
check_entries-headers out cfg s =
    ground (arith, check_ip-headers cfg s, check_ip-headers cfg (get (codes "last_tm") s).1)

read_entries-headers :
    (out : Outside) (cfg : Config) (s : Session) (text : Bytes)
    → headers_of (read_entries out cfg s text) ≡ s.res.headers
unfolding read_entries
read_entries-headers out cfg s text = elim (Option-cases (out.read_archive (percent_decode text))) [
  | inl unread ↦ ground arith
  | inr (entries, found) ↦
      ground (arith, check_entries-headers out cfg (record s { entries = entries }))
]

check_digest-headers :
    (out : Outside) (cfg : Config) (s : Session) (value : Bytes)
    → headers_of (check_digest out cfg s value) ≡ s.res.headers
unfolding check_digest delete_cookie set_cookie
check_digest-headers out cfg s value =
    ground (arith, read_entries-headers out cfg s (take (length value - 32) value))

load-headers :
    (out : Outside) (cfg : Config) (s : Session) → headers_of (load out cfg s) ≡ s.res.headers
unfolding load
load-headers out cfg s =
    let (value, req) = cookie s.req cfg.sess_cookie in
    ground (arith, check_digest-headers out cfg (record s { req = req }) value)

session_from-headers :
    (out : Outside) (cfg : Config) (result : Loaded)
    → headers_of (elim result [
      | accepted s ↦ accepted (update out cfg s)
      | refused s ↦ accepted (create out cfg s)
      | threw s ↦ threw s
    ])
      ≡ headers_of result
unfolding update create get set_cookie serialize_and_set put get_curr_ua
session_from-headers out cfg (accepted s) = ground (arith)
session_from-headers out cfg (refused s) = refl
session_from-headers out cfg (threw s) = refl

-- The constructor leaves the response's headers as they were, however it ends.
pub session-headers :
    (out : Outside) (cfg : Config) (s : Session) → headers_of (session out cfg s) ≡ s.res.headers
unfolding session
session-headers out cfg s = session_from-headers out cfg (load out cfg s) ∙ load-headers out cfg s
