-- ===== src/Config/Settings.antt =====
-- The sections `log` and `session` of a configuration that `init` has accepted.
use waspp.Base.{◌≡◌, sym, ap, ◌∙◌, Bool, [], ◌∷◌, Bytes, codes, equal, some, arith}
use waspp.Config.{Config}
use waspp.Config.Init.{Outside, ready, set_keys, set_log, set_session, read_log, read_session}
use waspp.Config.Keys.{
  setting, with_section-ready, set_keys-ready, set_keys-done, setting-found, ready-injective,
  cast_bool-ready,
}

pub record LogRead (c c' : Config) : Type 0 where
  pub level : Bytes
  pub rotation : Bytes
  pub said_level : setting c (codes "log") (codes "level") ≡ some level
  pub said_rotation : setting c (codes "log") (codes "rotation") ≡ some rotation
  pub all : c' ≡ record c { log_level = level; log_rotation = rotation }

pub read_log-LogRead : (c c' : Config) → read_log c ≡ ready c' → LogRead c c'
unfolding read_log set_log set_keys equal
read_log-LogRead c c' h =
    let (s, named, r) = with_section-ready (codes "log") _ c c' h in
    let a = set_keys-ready set_log s (codes "level") (codes "rotation" ∷ []) c c' r in
    let b = set_keys-ready set_log s (codes "rotation") [] a.between c' a.others in
    record {
      level = a.value;
      rotation = b.value;
      said_level = ground arith;
      said_rotation = ground arith;
      all = ground arith;
    }

pub record SessionRead (out : Outside) (c c' : Config) : Type 0 where
  pub key : Bytes
  pub cookie : Bytes
  pub expiry : Bytes
  pub update : Bytes
  pub ip : Bytes
  pub ua : Bytes
  pub same_ip : Bool
  pub same_ua : Bool
  pub said_key : setting c (codes "session") (codes "encrypt_key") ≡ some key
  pub said_cookie : setting c (codes "session") (codes "sess_cookie") ≡ some cookie
  pub said_expiry : setting c (codes "session") (codes "expiry_sec") ≡ some expiry
  pub said_update : setting c (codes "session") (codes "update_sec") ≡ some update
  pub said_ip : setting c (codes "session") (codes "validate_ip") ≡ some ip
  pub said_ua : setting c (codes "session") (codes "validate_ua") ≡ some ua
  pub cast_ip : out.lexical_cast ip ≡ some same_ip
  pub cast_ua : out.lexical_cast ua ≡ some same_ua
  pub all : c' ≡ record c {
    encrypt_key = key;
    sess_cookie = cookie;
    expiry_sec = out.strtod expiry;
    update_sec = out.strtod update;
    validate_ip = same_ip;
    validate_ua = same_ua;
  }

pub read_session-SessionRead :
    (out : Outside) (c c' : Config) → read_session out c ≡ ready c' → SessionRead out c c'
unfolding read_session set_session equal
read_session-SessionRead out c c' h =
    let (s, named, r) = with_section-ready (codes "session") _ c c' h in
    let k1 = set_keys-ready (set_session out) s _ _ c c' r in
    let k2 = set_keys-ready (set_session out) s _ _ k1.between c' k1.others in
    let k3 = set_keys-ready (set_session out) s _ _ k2.between c' k2.others in
    let k4 = set_keys-ready (set_session out) s _ _ k3.between c' k3.others in
    let k5 = set_keys-ready (set_session out) s _ _ k4.between c' k4.others in
    let k6 = set_keys-ready (set_session out) s _ _ k5.between c' k5.others in
    let done = set_keys-done (set_session out) s k6.between c' k6.others in
    let (b5, cast5, is5) = cast_bool-ready out k5.value k4.between _ k5.between k5.was_set in
    let (b6, cast6, is6) = cast_bool-ready out k6.value k5.between _ k6.between k6.was_set in
    let e1 = ready-injective _ k1.between k1.was_set in
    let e2 = ready-injective _ k2.between k2.was_set in
    let e3 = ready-injective _ k3.between k3.was_set in
    let e4 = ready-injective _ k4.between k4.was_set in
    record {
      key = k1.value;
      cookie = k2.value;
      expiry = k3.value;
      update = k4.value;
      ip = k5.value;
      ua = k6.value;
      same_ip = b5;
      same_ua = b6;
      said_key = setting-found c _ _ s _ named k1.found;
      said_cookie = setting-found c _ _ s _ named k2.found;
      said_expiry = setting-found c _ _ s _ named k3.found;
      said_update = setting-found c _ _ s _ named k4.found;
      said_ip = setting-found c _ _ s _ named k5.found;
      said_ua = setting-found c _ _ s _ named k6.found;
      cast_ip = cast5;
      cast_ua = cast6;
      all =
          sym done
          ∙ is6
          ∙ ap (λ (d : Config). record d { validate_ua = b6 })
              (is5
                ∙ ap (λ (d : Config). record d { validate_ip = b5 })
                    (e4
                      ∙ ap (λ (d : Config). record d { update_sec = out.strtod k4.value })
                          (e3
                            ∙ ap (λ (d : Config). record d { expiry_sec = out.strtod k3.value })
                                (e2
                                  ∙ ap (λ (d : Config). record d { sess_cookie = k2.value }) e1))));
    }
