-- ===== src/Session/Thrown.antt =====
-- A session that cannot be loaded, because its cookie or its archive is broken, leaves the response.
use waspp.Base.{◌-◌, ◌≡◌, Bytes, codes, take, length, Option-cases, inl, inr, arith}
use waspp.Request.{cookie}
use waspp.Config.{Config}
use waspp.Utility.Percent.{percent_decode}
use waspp.Session.{
  Outside, Session, Loaded, threw, get, check_ua, check_ip, check_entries, read_entries,
  check_digest, load, session,
}

-- Where the outcome is an exception, the response is that of `s`.
abbrev Leaves : Session → Loaded → Type 0
Leaves s result = (t : Session) → result ≡ threw t → t.res ≡ s.res

check_ua-Leaves : (cfg : Config) (s : Session) → Leaves s (check_ua cfg s)
unfolding check_ua
check_ua-Leaves cfg s t e = ground arith

check_ip-Leaves : (cfg : Config) (s : Session) → Leaves s (check_ip cfg s)
unfolding check_ip get
check_ip-Leaves cfg s t e =
    ground (arith, check_ua-Leaves cfg s t, check_ua-Leaves cfg (get (codes "last_ip") s).1 t)

check_entries-Leaves :
    (out : Outside) (cfg : Config) (s : Session) → Leaves s (check_entries out cfg s)
unfolding check_entries get
check_entries-Leaves out cfg s t e =
    ground (arith, check_ip-Leaves cfg s t, check_ip-Leaves cfg (get (codes "last_tm") s).1 t)

read_entries-Leaves :
    (out : Outside) (cfg : Config) (s : Session) (text : Bytes)
    → Leaves s (read_entries out cfg s text)
unfolding read_entries
read_entries-Leaves out cfg s text t e =
    elim (Option-cases (out.read_archive (percent_decode text))) [
      | inl unread ↦ ground arith
      | inr (entries, found) ↦
          ground (arith, check_entries-Leaves out cfg (record s { entries = entries }) t)
    ]

check_digest-Leaves :
    (out : Outside) (cfg : Config) (s : Session) (value : Bytes)
    → Leaves s (check_digest out cfg s value)
unfolding check_digest
check_digest-Leaves out cfg s value t e =
    ground (arith, read_entries-Leaves out cfg s (take (length value - 32) value) t)

load-Leaves : (out : Outside) (cfg : Config) (s : Session) → Leaves s (load out cfg s)
unfolding load
load-Leaves out cfg s t e =
    let (value, req) = cookie s.req cfg.sess_cookie in
    ground (arith, check_digest-Leaves out cfg (record s { req = req }) value t)

-- A constructor that throws leaves the response as it was.
pub session-threw :
    (out : Outside) (cfg : Config) (s t : Session) → session out cfg s ≡ threw t → t.res ≡ s.res
unfolding session
session-threw out cfg s t e = ground (arith, load-Leaves out cfg s t)
