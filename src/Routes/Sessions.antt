-- ===== src/Routes/Sessions.antt =====
-- Which user the session of a function's response belongs to.
use waspp.Base.{
  [], subst, ◌≡◌, refl, sym, ◌∙◌, false, List, Bytes, codes, equal, equal_iff, some, arith,
}
use waspp.Request.{NameValue, find_value}
use waspp.Utility.Percent.{percent_encode}
use waspp.Response.{set_entry}
use waspp.Response.Cookies.{find_value-set_cookie, find_value-set_entry}
use waspp.Config.{Config}
use waspp.Session as Session
use waspp.Session.{Outside, Loaded, accepted, refused, sign, serialize_and_set}
use waspp.Session.Thrown.{session-threw}
use waspp.Session.Users.{put-user}
use waspp.Routes.{State, World, open_session, sess_put, after_session, with_session}
use waspp.Routes.Triple.{Triple, Outcome}

-- The session's cookie is a signed archive of entries that name the user.
pub record IsSignedIn (out : Outside) (cfg : Config) (userid : Bytes) (cookies : List NameValue)
    : Type 0 where
  pub entries : List NameValue
  pub named : find_value (codes "userid") entries ≡ some userid
  pub signed :
      find_value cfg.sess_cookie cookies
      ≡ some (sign out cfg (percent_encode (out.write_archive entries)))

pub serialize-signed :
    (out : Outside) (cfg : Config) (s : Session.Session)
    → find_value cfg.sess_cookie (serialize_and_set out cfg s).res.cookies
      ≡ some (sign out cfg (percent_encode (out.write_archive s.entries)))
unfolding serialize_and_set
serialize-signed out cfg s = ground (
  arith,
  equal_iff cfg.sess_cookie cfg.sess_cookie,
  find_value-set_cookie s.res cfg.sess_cookie cfg.sess_cookie
      (sign out cfg (percent_encode (out.write_archive s.entries))),
)

put-signed :
    (out : Outside) (cfg : Config) (name value : Bytes) (s : Session.Session)
    → find_value cfg.sess_cookie (Session.put out cfg name value s).res.cookies
      ≡ some (
          sign out cfg
            (percent_encode (out.write_archive (Session.put out cfg name value s).entries)))
unfolding Session.put serialize_and_set
put-signed out cfg name value s =
    serialize-signed out cfg (record s { entries = set_entry name value s.entries })

put-named :
    (out : Outside) (cfg : Config) (value : Bytes) (s : Session.Session)
    → find_value (codes "userid") (Session.put out cfg (codes "userid") value s).entries
      ≡ some value
unfolding Session.put
put-named out cfg value s = ground (
  arith,
  equal_iff (codes "userid") (codes "userid"),
  find_value-set_entry (codes "userid") (codes "userid") value s.entries,
)

module _ {W : Type 0} (out : World W) (cfg : Config) where
  -- The function's session and the cookie agree, and name the user.
  pub record Names (userid : Bytes) (t : State W) : Type 0 where
    pub same_cfg : t.cfg ≡ cfg
    pub named : find_value (codes "userid") t.entries ≡ some userid
    pub signed :
        find_value cfg.sess_cookie t.res.cookies
        ≡ some (sign out.session cfg (percent_encode (out.session.write_archive t.entries)))

  pub Names-IsSignedIn :
      (userid : Bytes) (t : State W)
      → Names userid t
      → IsSignedIn out.session cfg userid t.res.cookies
  Names-IsSignedIn userid t h = record { entries = t.entries; named = h.named; signed = h.signed }

  abbrev pub Configured : State W → Type 0
  Configured t = t.cfg ≡ cfg

  module _ {E : State W → Type 0} where
    pub put_user-Names :
        (userid : Bytes)
        → Triple Configured (λ x. Names userid) E (sess_put out (codes "userid") userid)
    unfolding sess_put
    put_user-Names userid = record {
      run = λ s p.
          let sess : Session.Session = record { entries = s.entries; req = s.req; res = s.res } in
          subst
            (λ c.
              Names userid
                (with_session out s (Session.put out.session c (codes "userid") userid sess)))
            (sym p)
            (record {
              same_cfg = p;
              named = put-named out.session cfg userid sess;
              signed = put-signed out.session cfg (codes "userid") userid sess;
            });
    }

    pub put_other-Names :
        (userid name value : Bytes)
        → equal name (codes "userid") ≡ false
        → Triple (Names userid) (λ x. Names userid) E (sess_put out name value)
    unfolding sess_put
    put_other-Names userid name value other = record {
      run = λ s p.
          let sess : Session.Session = record { entries = s.entries; req = s.req; res = s.res } in
          subst (λ c. Names userid (with_session out s (Session.put out.session c name value sess)))
            (sym p.same_cfg)
            (record {
              same_cfg = p.same_cfg;
              named = put-user out.session cfg name value sess other ∙ p.named;
              signed = put-signed out.session cfg name value sess;
            });
    }

  -- What holds after the constructor of a session, where an exception leaves the response.
  pub open_session-Configured :
      (E : State W → Type 0) (P : State W → Type 0)
      → ((s : State W) → P s → Configured s)
      → ((s : State W) (t : Session.Session) → P s → t.res ≡ s.res → E (with_session out s t))
      → Triple P (λ x. Configured) E (open_session out)
  unfolding open_session
  open_session-Configured E P same thrown = record {
    run = λ s p.
        let fresh : Session.Session = record { entries = []; req = s.req; res = s.res } in
        opened s (Session.session out.session s.cfg fresh)
          (λ t e. thrown s t p (session-threw out.session s.cfg fresh t e)) (same s p);
  }
    where
      opened :
          (s : State W) (result : Loaded)
          → ((t : Session.Session) → result ≡ Loaded.threw t → E (with_session out s t))
          → Configured s
          → Outcome (λ x. Configured) E (after_session out s result)
      opened s (accepted t) h p = p
      opened s (refused t) h p = p
      opened s (Loaded.threw t) h p = h t refl
