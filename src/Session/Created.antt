-- ===== src/Session/Created.antt =====
-- The session that `create` makes is accepted when its client comes back in time.
use waspp.Base.{
  ℕ, zero, suc, ◌+◌, ◌-◌, ◌^◌, ◌≤◌, ◌<◌, ◌≡◌, refl, sym, ap, ◌∙◌, true, false, List, [], ◌∷◌, Bytes,
  IsBytes, codes, length, take, some, arith,
}
use waspp.Request.{Request, NameValue, find_value, lookup, header}
use waspp.Response.{Response}
use waspp.Response.Decimal.{to_string}
use waspp.Strtol.Written.{read-to_string}
use waspp.Config.{Config}
use waspp.Session.{
  Outside, Session, get_curr_ua, serialize_and_set, create, load, has_keys, is_later, read_tm,
}
use waspp.Session.Returned.{IsCurrent, Accepts, load-serialize_and_set}

-- The outside at a later time.
abbrev pub at_time : ℕ → Outside → Outside
at_time later out = record out { now = later }

read_tm-to_string : (n : ℕ) → 1 ≤ n → n < 2 ^ 63 → read_tm (to_string n) ≡ (false, n)
read_tm-to_string n h k = ground (arith, read-to_string n h)

-- The request comes from the client for which the session was made.
pub record IsSameClient (req req' : Request) : Type 0 where
  pub same_ip : req'.remote_addr ≡ req.remote_addr
  pub same_ua :
      (lookup (codes "User-Agent") req'.headers).0 ≡ (lookup (codes "User-Agent") req.headers).0

abbrev created : Outside → Config → Session → List NameValue
created out cfg s = (create out cfg s).entries

created-last_tm :
    (out : Outside) (cfg : Config) (s : Session)
    → (lookup (codes "last_tm") (created out cfg s)).0 ≡ to_string out.now
unfolding create lookup find_value waspp.Base.equal
created-last_tm out cfg s = refl

created-last_ip :
    (out : Outside) (cfg : Config) (s : Session)
    → (lookup (codes "last_ip") (created out cfg s)).0 ≡ s.req.remote_addr
unfolding create lookup find_value waspp.Base.equal
created-last_ip out cfg s = refl

created-last_ua :
    (out : Outside) (cfg : Config) (s : Session)
    → (lookup (codes "last_ua") (created out cfg s)).0
      ≡ take 120 (lookup (codes "User-Agent") s.req.headers).0
unfolding create get_curr_ua header lookup find_value waspp.Base.equal
created-last_ua out cfg s = refl

created-has_keys :
    (out : Outside) (cfg : Config) (s : Session) → has_keys (created out cfg s) ≡ true
unfolding create has_keys find_value waspp.Base.equal
created-has_keys out cfg s = refl

create-IsCurrent :
    (out : Outside) (cfg : Config) (s : Session) (req : Request) (later : ℕ)
    → 1 ≤ out.now
    → out.now < 2 ^ 63
    → later ≤ out.now + cfg.expiry_sec
    → IsSameClient s.req req
    → IsCurrent (at_time later out) cfg req (created out cfg s)
create-IsCurrent out cfg s req later h k l same =
    let tm = ap read_tm (created-last_tm out cfg s) ∙ read_tm-to_string out.now h k in
    record {
      keyed = created-has_keys out cfg s;
      fresh = ap (λ t. is_later later t cfg.expiry_sec) tm ∙ ground arith;
      same_ip = λ e. same.same_ip ∙ sym (created-last_ip out cfg s);
      same_ua = λ e. ap (take 120) same.same_ua ∙ sym (created-last_ua out cfg s);
    }

-- Suppose that digests have 32 bytes, that the archive of the entries that `create` makes consists of
-- bytes and is read back, and that the time is at least 1 and below 2 ^ 63 when it makes them. When the
-- same client sends the cookie back, before the session expires, `load` accepts it and has these
-- entries.
pub load-create :
    (out : Outside) (cfg : Config) (s : Session) (req : Request) (res : Response) (later : ℕ)
    → ((text : Bytes) → length (out.md5_digest text) ≡ 32)
    → out.read_archive (out.write_archive (create out cfg s).entries)
      ≡ some (create out cfg s).entries
    → IsBytes (out.write_archive (create out cfg s).entries)
    → 1 ≤ out.now
    → out.now < 2 ^ 63
    → later ≤ out.now + cfg.expiry_sec
    → IsSameClient s.req req
    → find_value cfg.sess_cookie req.cookies
      ≡ find_value cfg.sess_cookie (create out cfg s).res.cookies
    → Accepts
        (load (at_time later out) cfg (record { entries = []; req = req; res = res }))
        (create out cfg s).entries
unfolding create serialize_and_set
load-create out cfg s req res later sizes back bytes h k l same sent =
    let fresh : Session = record (get_curr_ua s).1 { entries = created out cfg s } in
    load-serialize_and_set (at_time later out) cfg fresh req res sizes back bytes
      (create-IsCurrent out cfg s req later h k l same) sent
