-- ===== src/Session/Returned.antt =====
-- The cookie that `serialize_and_set` writes is accepted when it comes back.
use waspp.Base.{
  ◌-◌, ◌≡◌, refl, sym, ap, ◌∙◌, true, false, inl, inr, List, [], ◌∷◌, ◌++◌, ltb, Bytes, IsBytes,
  codes, equal_iff, is_empty, length, take, drop, some, Bool-cases, arith, length-append,
  take_append, drop_append, append-nil,
}
use waspp.Request.{Request, NameValue, find_value, lookup, header, cookie, lookup-eq}
use waspp.Response.{Response}
use waspp.Response.Cookies.{find_value-set_cookie}
use waspp.Utility.Percent.{percent_encode, percent_decode, decode_from}
use waspp.Utility.Percent.RoundTrip.{percent_decode-percent_encode}
use waspp.Config.{Config}
use waspp.Session.{
  Outside, Session, Loaded, accepted, get, get_curr_ua, sign, serialize_and_set, is_present,
  has_keys, check_ua, check_ip, check_entries, read_entries, check_digest, load, is_later, read_tm,
}
use waspp.Session.Signed.{get-is_present, lookup-is_present}

-- The entries pass the tests of `load` for a request, at a time.
pub record IsCurrent (out : Outside) (cfg : Config) (req : Request) (entries : List NameValue)
    : Type 0 where
  pub keyed : has_keys entries ≡ true
  pub fresh : is_later out.now (read_tm (lookup (codes "last_tm") entries).0) cfg.expiry_sec ≡ false
  pub same_ip : cfg.validate_ip ≡ true → req.remote_addr ≡ (lookup (codes "last_ip") entries).0
  pub same_ua :
      cfg.validate_ua ≡ true
      → take 120 (lookup (codes "User-Agent") req.headers).0 ≡ (lookup (codes "last_ua") entries).0

-- The loading ends in a session with these entries.
pub record Accepts (result : Loaded) (entries : List NameValue) : Type 0 where
  pub final : Session
  pub is_accepted : result ≡ accepted final
  pub kept : final.entries ≡ entries

check_ua-Accepts :
    (out : Outside) (cfg : Config) (s : Session)
    → IsCurrent out cfg s.req s.entries
    → Accepts (check_ua cfg s) s.entries
unfolding check_ua get_curr_ua get header has_keys
check_ua-Accepts out cfg s h = elim (Bool-cases cfg.validate_ua) [
  | inl tested ↦
      let same = (equal_iff _ _).1 (h.same_ua tested) in
      rw (check_ua, tested, same)
        (record {
          final = _;
          is_accepted = refl;
          kept = lookup-is_present (codes "last_ua") s.entries (ground (arith, h.keyed));
        })
  | inr untested ↦ rw (check_ua, untested) (record { final = s; is_accepted = refl; kept = refl })
]

get-value : (n : Bytes) (s : Session) → (get n s).0 ≡ (lookup n s.entries).0
unfolding get
get-value n s = refl

has_keys-parts :
    (es : List NameValue)
    → has_keys es ≡ true
    → (is_present (codes "last_tm") es ≡ true) × (is_present (codes "last_ip") es ≡ true)
unfolding has_keys
has_keys-parts es h = ground arith

check_ip-Accepts :
    (out : Outside) (cfg : Config) (s : Session)
    → IsCurrent out cfg s.req s.entries
    → Accepts (check_ip cfg s) s.entries
unfolding check_ip
check_ip-Accepts out cfg s h = elim (Bool-cases cfg.validate_ip) [
  | inl tested ↦
      let same = (equal_iff _ _).1 (h.same_ip tested ∙ sym (get-value (codes "last_ip") s)) in
      let whole = get-is_present (codes "last_ip") s (has_keys-parts s.entries h.keyed).1 in
      let passed : check_ip cfg s ≡ check_ua cfg s = ground (arith, same, whole) in
      rw passed (check_ua-Accepts out cfg s h)
  | inr untested ↦
      let passed : check_ip cfg s ≡ check_ua cfg s = ground arith in
      rw passed (check_ua-Accepts out cfg s h)
]

check_entries-Accepts :
    (out : Outside) (cfg : Config) (s : Session)
    → IsCurrent out cfg s.req s.entries
    → Accepts (check_entries out cfg s) s.entries
unfolding check_entries
check_entries-Accepts out cfg s h =
    let whole = get-is_present (codes "last_tm") s (has_keys-parts s.entries h.keyed).0 in
    let value = get-value (codes "last_tm") s in
    rw (check_entries, h.keyed, whole, value, h.fresh) (check_ip-Accepts out cfg s h)

percent_decode-nil : percent_decode [] ≡ []
unfolding percent_decode decode_from
percent_decode-nil = refl

pub decode-encode : (text : Bytes) → IsBytes text → percent_decode (percent_encode text) ≡ text
decode-encode text bytes =
    ap percent_decode (sym (append-nil (percent_encode text)))
    ∙ percent_decode-percent_encode text [] bytes
    ∙ ap (λ t. text ++ t) percent_decode-nil
    ∙ append-nil text

read_entries-Accepts :
    (out : Outside) (cfg : Config) (s : Session) (es : List NameValue)
    → out.read_archive (out.write_archive es) ≡ some es
    → IsBytes (out.write_archive es)
    → IsCurrent out cfg s.req es
    → Accepts (read_entries out cfg s (percent_encode (out.write_archive es))) es
unfolding read_entries
read_entries-Accepts out cfg s es back bytes h =
    let decoded = decode-encode (out.write_archive es) bytes in
    rw (read_entries, decoded, back) (check_entries-Accepts out cfg (record s { entries = es }) h)

-- A text with 32 bytes behind it is cut where they begin.
cut_digest :
    (text digest : Bytes)
    → length digest ≡ 32
    → (ltb (length (text ++ digest)) 32 ≡ false)
      × (take (length (text ++ digest) - 32) (text ++ digest) ≡ text)
      × (drop (length (text ++ digest) - 32) (text ++ digest) ≡ digest)
cut_digest text digest size =
    let front : length (text ++ digest) - 32 ≡ length text =
      omega (arith, length-append text digest) in
    (
      ground (arith, length-append text digest),
      rw front (take_append text digest),
      rw front (drop_append text digest),
    )

-- A signed text splits again, since a digest has 32 bytes.
check_digest-sign :
    (out : Outside) (cfg : Config) (s : Session) (text : Bytes)
    → length (out.md5_digest (text ++ cfg.encrypt_key)) ≡ 32
    → check_digest out cfg s (sign out cfg text) ≡ read_entries out cfg s text
unfolding check_digest sign
check_digest-sign out cfg s text size =
    let digest = out.md5_digest (text ++ cfg.encrypt_key) in
    let (long, front, back) = cut_digest text digest size in
    ground (
      arith,
      long,
      front,
      back,
      equal_iff digest digest,
      ap (λ t. out.md5_digest (t ++ cfg.encrypt_key)) front,
    )

sign-is_empty :
    (out : Outside) (cfg : Config) (text : Bytes)
    → length (out.md5_digest (text ++ cfg.encrypt_key)) ≡ 32
    → is_empty (sign out cfg text) ≡ false
unfolding sign
sign-is_empty out cfg [] size = not_empty (out.md5_digest cfg.encrypt_key) size
  where
    not_empty : (d : Bytes) → length d ≡ 32 → is_empty d ≡ false
    not_empty [] e = absurd (omega arith)
    not_empty (c ∷ d) e = refl
sign-is_empty out cfg (c ∷ text) size = refl

-- Suppose that digests have 32 bytes, that the archive of the entries consists of bytes and is read
-- back, and that the entries are current for the request. When the client sends back the cookie that
-- `serialize_and_set` has set, `load` accepts it and has the same entries.
pub load-serialize_and_set :
    (out : Outside) (cfg : Config) (s : Session) (req : Request) (res : Response)
    → ((text : Bytes) → length (out.md5_digest text) ≡ 32)
    → out.read_archive (out.write_archive s.entries) ≡ some s.entries
    → IsBytes (out.write_archive s.entries)
    → IsCurrent out cfg req s.entries
    → find_value cfg.sess_cookie req.cookies
      ≡ find_value cfg.sess_cookie (serialize_and_set out cfg s).res.cookies
    → Accepts (load out cfg (record { entries = []; req = req; res = res })) s.entries
unfolding load cookie serialize_and_set
load-serialize_and_set out cfg s req res sizes back bytes current sent =
    let text = percent_encode (out.write_archive s.entries) in
    let value = sign out cfg text in
    let size = sizes (text ++ cfg.encrypt_key) in
    let found = sent ∙ find_value-set_cookie s.res cfg.sess_cookie cfg.sess_cookie value in
    let returned : (lookup cfg.sess_cookie req.cookies).0 ≡ value = ground (
      arith,
      lookup-eq cfg.sess_cookie req.cookies,
      found,
      equal_iff cfg.sess_cookie cfg.sess_cookie,
    ) in
    let begun : Session = record {
      entries = [];
      req = record req { cookies = (lookup cfg.sess_cookie req.cookies).1 };
      res = res;
    } in
    let same : IsCurrent out cfg begun.req s.entries = record {
      keyed = current.keyed;
      fresh = current.fresh;
      same_ip = current.same_ip;
      same_ua = current.same_ua;
    } in
    let passed : load out cfg (record { entries = []; req = req; res = res })
        ≡ read_entries out cfg begun text =
      ground (
        arith,
        returned,
        sign-is_empty out cfg text size,
        check_digest-sign out cfg begun text size,
      ) in
    rw passed (read_entries-Accepts out cfg begun s.entries back bytes same)
