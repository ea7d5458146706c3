-- ===== src/Session/Signed.antt =====
-- A session is accepted from signed cookies only, and from those that `serialize_and_set` writes.
use waspp.Base.{
  ◌-◌, ◌≡◌, ap, ◌∙◌, true, false, inl, inr, List, ◌++◌, ltb, Bytes, codes, equal_iff, is_empty,
  length, take, drop, some, Bool-cases, Option-cases, arith, take-append-drop,
}
use waspp.Request.{NameValue, find_value, lookup, cookie}
use waspp.Utility.Percent.{percent_decode}
use waspp.Config.{Config}
use waspp.Session.{
  Outside, Session, Loaded, accepted, get, get_curr_ua, sign, is_present, has_keys, check_ua,
  check_ip, check_entries, read_entries, check_digest, load,
}

pub lookup-is_present :
    (n : Bytes) (xs : List NameValue) → is_present n xs ≡ true → (lookup n xs).1 ≡ xs
unfolding lookup
lookup-is_present n xs h = ground arith

pub get-is_present : (n : Bytes) (s : Session) → is_present n s.entries ≡ true → (get n s).1 ≡ s
unfolding get
get-is_present n s h = ap (λ es. record s { entries = es }) (lookup-is_present n s.entries h)

-- The entries of a session that some test let through are those it had.
abbrev Keeps : Session → Loaded → Type 0
Keeps s result = (s' : Session) → result ≡ accepted s' → s'.entries ≡ s.entries

check_ua-Keeps : (cfg : Config) (s : Session) → has_keys s.entries ≡ true → Keeps s (check_ua cfg s)
unfolding check_ua get_curr_ua has_keys
check_ua-Keeps cfg s h s' e = ground (arith, get-is_present (codes "last_ua") (get_curr_ua s).1)

check_ip-Keeps : (cfg : Config) (s : Session) → has_keys s.entries ≡ true → Keeps s (check_ip cfg s)
unfolding check_ip has_keys
check_ip-Keeps cfg s h s' e =
    ground (arith, get-is_present (codes "last_ip") s, check_ua-Keeps cfg s h s')

check_keyed-Keeps :
    (out : Outside) (cfg : Config) (s : Session)
    → has_keys s.entries ≡ true
    → Keeps s (check_entries out cfg s)
unfolding check_entries has_keys
check_keyed-Keeps out cfg s keyed s' e =
    ground (arith, get-is_present (codes "last_tm") s, check_ip-Keeps cfg s keyed s')

check_entries-Keeps :
    (out : Outside) (cfg : Config) (s : Session) → Keeps s (check_entries out cfg s)
unfolding check_entries
check_entries-Keeps out cfg s s' e = elim (Bool-cases (has_keys s.entries)) [
  | inl keyed ↦ check_keyed-Keeps out cfg s keyed s' e
  | inr other ↦ absurd (ground arith)
]

-- Where the entries of an accepted session come from.
pub record IsSigned (out : Outside) (cfg : Config) (s s' : Session) : Type 0 where
  pub text : Bytes
  pub signed : find_value cfg.sess_cookie s.req.cookies ≡ some (sign out cfg text)
  pub read : out.read_archive (percent_decode text) ≡ some s'.entries

read_entries-read :
    (out : Outside) (cfg : Config) (s s' : Session) (text : Bytes)
    → read_entries out cfg s text ≡ accepted s'
    → out.read_archive (percent_decode text) ≡ some s'.entries
unfolding read_entries
read_entries-read out cfg s s' text e =
    elim (Option-cases (out.read_archive (percent_decode text))) [
      | inl unread ↦ absurd (ground arith)
      | inr (entries, found) ↦
          ground (arith, check_entries-Keeps out cfg (record s { entries = entries }) s')
    ]

-- The cookie's value ends in the digest of the rest and the key.
check_digest-sign :
    (out : Outside) (cfg : Config) (s s' : Session) (value : Bytes)
    → check_digest out cfg s value ≡ accepted s'
    → (value ≡ sign out cfg (take (length value - 32) value))
      × (read_entries out cfg s (take (length value - 32) value) ≡ accepted s')
unfolding check_digest sign
check_digest-sign out cfg s s' value e = elim (Bool-cases (ltb (length value) 32)) [
  | inl short ↦ absurd (ground arith)
  | inr long ↦ ground (
    arith,
    take-append-drop (length value - 32) value,
    equal_iff (drop (length value - 32) value)
        (out.md5_digest (take (length value - 32) value ++ cfg.encrypt_key)),
  )
]

pub find_value-full :
    (n : Bytes) (xs : List NameValue)
    → is_empty (lookup n xs).0 ≡ false
    → find_value n xs ≡ some (lookup n xs).0
unfolding lookup
find_value-full n xs h = ground arith

-- An accepted session has the entries that were read from the text of a cookie in the request, and
-- the cookie is that text followed by the digest of the text and the key.
pub load-IsSigned :
    (out : Outside) (cfg : Config) (s s' : Session)
    → load out cfg s ≡ accepted s'
    → IsSigned out cfg s s'
unfolding load cookie
load-IsSigned out cfg s s' e =
    let value = (lookup cfg.sess_cookie s.req.cookies).0 in
    elim (Bool-cases (is_empty value)) [
      | inl empty ↦ absurd (ground arith)
      | inr full ↦
          let (e_sign, e_read) =
            check_digest-sign out cfg (record s { req = (cookie s.req cfg.sess_cookie).1 }) s' value
              (ground arith) in
          record {
            text = take (length value - 32) value;
            signed = find_value-full cfg.sess_cookie s.req.cookies full ∙ ap some e_sign;
            read = read_entries-read out cfg _ s' _ e_read;
          }
    ]
