-- ===== src/Session.antt =====
-- src/session.cpp: the session that a signed cookie carries. The digest, the archive of the
-- serialization library, the random number and the clock are arguments. Times are in whole seconds, and
-- their differences are exact.
pub mod Signed
pub mod Returned
pub mod Headers
pub mod Created
pub mod Thrown
pub mod Users
use Prim.Native.Nat.{min}
use waspp.Base.{
  ℕ, ◌+◌, ◌-◌, ◌^◌, Bool, true, false, not, ◌&&◌, ◌||◌, List, [], ◌∷◌, ◌++◌, ltb, if◌then◌else◌,
  Bytes, codes, equal, is_empty, length, take, drop, Option, none, some,
}
use waspp.Request.{Request, NameValue, find_value, lookup, header, cookie}
use waspp.Response.{Response, set_entry, set_cookie, delete_cookie}
use waspp.Response.Decimal.{to_string}
use waspp.Strtol.{skip_spaces, read_signed}
use waspp.Utility.Percent.{percent_encode, percent_decode}
use waspp.Config.{Config}

-- `read_archive` gives `none` where `operator>>` throws.
pub record Outside : Type 0 where
  pub md5_digest : Bytes → Bytes
  pub write_archive : List NameValue → Bytes
  pub read_archive : Bytes → Option (List NameValue)
  pub uuid : Bytes
  pub now : ℕ

-- `session_`, and the request and the response that the session refers to.
pub record Session : Type 0 where
  pub entries : List NameValue
  pub req : Request
  pub res : Response

-- What `load` returns, or that it throws.
pub data Loaded : Type 0 where
  accepted : Session → Loaded
  refused : Session → Loaded
  threw : Session → Loaded

-- `strtoll(s, nullptr, 0)`, as a sign and a magnitude.
abbrev pub read_tm : Bytes → Bool × ℕ
read_tm s =
    let (negative, value) = read_signed (skip_spaces s) in
    (negative, min value (if negative then 2 ^ 63 else 2 ^ 63 - 1))

-- `difftime(now, last) > limit` and `difftime(now, last) < limit`
abbrev pub is_later : ℕ → Bool × ℕ → ℕ → Bool
is_later now last limit = if last.0 then ltb limit (now + last.1) else ltb (last.1 + limit) now

abbrev is_sooner : ℕ → Bool × ℕ → ℕ → Bool
is_sooner now last limit = if last.0 then ltb (now + last.1) limit else ltb now (last.1 + limit)

-- `get`, which appends an empty entry where there is none.
unfoldable pub get : Bytes → Session → Bytes × Session
get name s = let (value, entries) = lookup name s.entries in (value, record s { entries = entries })

-- The text of the cookie, followed by the digest of the text and the key.
unfoldable pub sign : Outside → Config → Bytes → Bytes
sign out cfg text = text ++ out.md5_digest (text ++ cfg.encrypt_key)

unfoldable pub serialize_and_set : Outside → Config → Session → Session
unfolding sign
serialize_and_set out cfg s = record s {
  res =
      set_cookie s.res cfg.sess_cookie
        (sign out cfg (percent_encode (out.write_archive s.entries)));
}

-- `put`: the entry is found or appended, and its value is set.
unfoldable pub put : Outside → Config → Bytes → Bytes → Session → Session
unfolding serialize_and_set
put out cfg name value s =
    serialize_and_set out cfg (record s { entries = set_entry name value s.entries })

-- `get_curr_ua`
unfoldable pub get_curr_ua : Session → Bytes × Session
get_curr_ua s =
    let (ua, req) = header s.req (codes "User-Agent") in (take 120 ua, record s { req = req })

abbrev refuse : Config → Session → Loaded
refuse cfg s = refused (record s { res = delete_cookie s.res cfg.sess_cookie })

abbrev is_present : Bytes → List NameValue → Bool
is_present key entries = elim (find_value key entries) [ none ↦ false | some v ↦ true ]

-- The loop over `keys`.
unfoldable pub has_keys : List NameValue → Bool
has_keys entries =
    is_present (codes "sess_id") entries
    && is_present (codes "last_tm") entries
    && is_present (codes "last_ip") entries
    && is_present (codes "last_ua") entries

-- The test of the user agent, the last one.
unfoldable pub check_ua : Config → Session → Loaded
unfolding get get_curr_ua
check_ua cfg s =
    let (curr, s') = get_curr_ua s in
    let (last, s'') = get (codes "last_ua") s' in
    if not cfg.validate_ua
    then accepted s
    else if equal curr last
    then accepted s''
    else refuse cfg s''

unfoldable pub check_ip : Config → Session → Loaded
unfolding get
check_ip cfg s =
    let (last, s') = get (codes "last_ip") s in
    if not cfg.validate_ip
    then check_ua cfg s
    else if equal s.req.remote_addr last
    then check_ua cfg s'
    else refuse cfg s'

-- What `load` does with the entries that it has read.
unfoldable pub check_entries : Outside → Config → Session → Loaded
unfolding get
check_entries out cfg s =
    let (last, s') = get (codes "last_tm") s in
    if not (has_keys s.entries)
    then refuse cfg s
    else if is_later out.now (read_tm last) cfg.expiry_sec
    then refuse cfg s'
    else check_ip cfg s'

-- What `load` does with the cookie's text, whose digest has been tested.
unfoldable pub read_entries : Outside → Config → Session → Bytes → Loaded
read_entries out cfg s text = elim (out.read_archive (percent_decode text)) [
  | none ↦ threw s
  | some entries ↦ check_entries out cfg (record s { entries = entries })
]

-- The last 32 bytes are the digest of the others and the key. A shorter cookie makes `substr` throw.
unfoldable pub check_digest : Outside → Config → Session → Bytes → Loaded
check_digest out cfg s value =
    let text = take (length value - 32) value in
    if ltb (length value) 32
    then threw s
    else if equal (drop (length value - 32) value) (out.md5_digest (text ++ cfg.encrypt_key))
    then read_entries out cfg s text
    else refuse cfg s

unfoldable pub load : Outside → Config → Session → Loaded
load out cfg s =
    let (value, req) = cookie s.req cfg.sess_cookie in
    if is_empty value
    then refused (record s { req = req })
    else check_digest out cfg (record s { req = req }) value

unfoldable pub create : Outside → Config → Session → Session
unfolding get_curr_ua serialize_and_set
create out cfg s =
    let (ua, s') = get_curr_ua s in
    serialize_and_set out cfg (record s' {
      entries =
          record { name = codes "sess_id"; value = out.md5_digest out.uuid }
          ∷ record { name = codes "last_tm"; value = to_string out.now }
          ∷ record { name = codes "last_ip"; value = s.req.remote_addr }
          ∷ record { name = codes "last_ua"; value = ua }
          ∷ [];
    })

unfoldable pub update : Outside → Config → Session → Session
unfolding get put serialize_and_set
update out cfg s =
    let (last, s') = get (codes "last_tm") s in
    let id = out.md5_digest (out.uuid ++ s.req.remote_addr) in
    if is_sooner out.now (read_tm last) cfg.update_sec
    then s'
    else serialize_and_set out cfg
        (put out cfg (codes "last_tm") (to_string out.now) (put out cfg (codes "sess_id") id s'))

-- The constructor: an accepted session is updated, a refused one is replaced.
unfoldable pub session : Outside → Config → Session → Loaded
session out cfg s = elim (load out cfg s) [
  | accepted s' ↦ accepted (update out cfg s')
  | refused s' ↦ accepted (create out cfg s')
  | threw s' ↦ threw s'
]
