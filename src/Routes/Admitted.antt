-- ===== src/Routes/Admitted.antt =====
-- The functions of src/route_dir_forum.cpp for a client that `auth` of src/route_dir_user.cpp signed in.
use waspp.Base.{
  Bool, true, ◌≡◌, refl, sym, ap, ◌∙◌, false, List, [], Bytes, IsBytes, codes, is_empty, length,
  some, arith,
}
use waspp.Request.{Request, NameValue, find_value, lookup, lookup-eq}
use waspp.Request.Lookup.{or_empty}
use waspp.Response.{Response}
use waspp.Config.{Config}
use waspp.Utility.Percent.{percent_encode}
use waspp.Session as Session
use waspp.Session.{Outside, Loaded, accepted, sign, serialize_and_set, load, update}
use waspp.Session.Returned.{IsCurrent, Accepts, load-serialize_and_set}
use waspp.Session.Users.{update-user}
use waspp.Routes.{
  Action, State, World, Ended, ◌>>=◌, open_session, sess_get, leave_if, after_session, with_session,
}
use waspp.Routes.Forum.{signed_in}
use waspp.Routes.Sessions.{serialize-signed}
use waspp.Response.Decimal.{to_string}
use waspp.Routes.SignIn.{WasFound}
use waspp.Strtol.Written.{is_empty-to_string}
use waspp.Routes.Table.{start}

-- An archive that is read back, of entries that are current for a request which carries their signed
-- cookie, with digests of 32 bytes.
pub record Carries (out : Outside) (cfg : Config) (req : Request) (entries : List NameValue)
    : Type 0 where
  pub sizes : (text : Bytes) → length (out.md5_digest text) ≡ 32
  pub back : out.read_archive (out.write_archive entries) ≡ some entries
  pub bytes : IsBytes (out.write_archive entries)
  pub current : IsCurrent out cfg req entries
  pub sent :
      find_value cfg.sess_cookie req.cookies
      ≡ some (sign out cfg (percent_encode (out.write_archive entries)))

-- The archive of some entries consists of bytes and is read back.
pub record IsReadBack (out : Outside) (entries : List NameValue) : Type 0 where
  pub back : out.read_archive (out.write_archive entries) ≡ some entries
  pub bytes : IsBytes (out.write_archive entries)

-- The session is there, and names the user.
record HasUser (result : Loaded) (userid : Bytes) : Type 0 where
  pub final : Session.Session
  pub same : result ≡ accepted final
  pub named : find_value (codes "userid") final.entries ≡ some userid

-- The function goes on, from some state, with what follows its guard.
pub record GoesTo {W : Type 0} (e : Ended W (Unit {0})) (next : Action W (Unit {0})) : Type 0 where
  pub state : State W
  pub same : e ≡ next state

module _ {W : Type 0} (out : World W) where
  loaded :
      (cfg : Config) (req : Request) (res : Response) (entries : List NameValue)
      → Carries out.session cfg req entries
      → Accepts (load out.session cfg (record { entries = []; req = req; res = res })) entries
  loaded cfg req res entries h =
      load-serialize_and_set out.session cfg (record { entries = entries; req = req; res = res })
        req res h.sizes h.back h.bytes h.current (h.sent ∙ sym (serialize-signed out.session cfg _))

  passes :
      (c : Bool) (refuse k : Action W (Unit {0})) (s : State W)
      → c ≡ false
      → (leave_if c refuse >>= λ _. k) s ≡ k s
  unfolding ◌>>=◌ leave_if
  passes false refuse k s e = refl
  passes true refuse k s e = absurd (ground arith)

  session-user :
      (cfg : Config) (fresh : Session.Session) (entries : List NameValue) (userid : Bytes)
      → Accepts (load out.session cfg fresh) entries
      → find_value (codes "userid") entries ≡ some userid
      → HasUser (Session.session out.session cfg fresh) userid
  unfolding Session.session
  session-user cfg fresh entries userid h named =
      rw (Session.session, h.is_accepted)
        (record {
          final = update out.session cfg h.final;
          same = refl;
          named =
              update-user out.session cfg h.final ∙ ap (find_value (codes "userid")) h.kept ∙ named;
        })

  opened-GoesTo :
      (s : State W) (result : Loaded) (userid : Bytes) (refuse : Action W (Unit {0}))
      (next : Bytes → Action W (Unit {0}))
      → HasUser result userid
      → is_empty userid ≡ false
      → GoesTo
          (((λ t. after_session out s result) >>= λ _. sess_get (codes "userid") >>= λ user.
              leave_if (is_empty user) refuse >>= λ _. next user)
            s)
          (next userid)
  unfolding ◌>>=◌ sess_get Session.get
  opened-GoesTo s result userid refuse next h full =
      let value : (lookup (codes "userid") h.final.entries).0 ≡ userid =
        lookup-eq (codes "userid") h.final.entries ∙ ap or_empty h.named in
      let sess : Session.Session = record {
        entries = h.final.entries;
        req = h.final.req;
        res = h.final.res;
      } in
      let t : State W = record (with_session out s h.final) {
        entries = (Session.get (codes "userid") sess).1.entries;
      } in
      rw h.same (record {
        state = t;
        same = passes _ refuse _ t (ap is_empty value ∙ full) ∙ ap (λ u. next u t) value;
      })

  -- Suppose that digests have 32 bytes, that the archive of some entries consists of bytes and is read
  -- back, that they name a user by a text that is not empty and are current for a request, and that the
  -- request carries the cookie that is signed for them. Then the guard of the functions of the forum lets
  -- the request pass, for that user.
  signed_in-GoesTo :
      (db : W) (cfg : Config) (req : Request) (res : Response) (entries : List NameValue)
      (userid : Bytes) (refuse : Action W (Unit {0})) (next : Bytes → Action W (Unit {0}))
      → Carries out.session cfg req entries
      → find_value (codes "userid") entries ≡ some userid
      → is_empty userid ≡ false
      → GoesTo (signed_in out refuse next (start db cfg req res)) (next userid)
  unfolding signed_in open_session ◌>>=◌
  signed_in-GoesTo db cfg req res entries userid refuse next h named full =
      let fresh : Session.Session = record { entries = []; req = req; res = res } in
      opened-GoesTo (start db cfg req res) (Session.session out.session cfg fresh) userid refuse
        next (session-user cfg fresh entries userid (loaded cfg req res entries h) named) full

  -- Suppose that `auth` signed in a user who was found, that digests have 32 bytes, that the archive of the
  -- session's entries consists of bytes and is read back, and that a later request carries the cookie
  -- and the entries are current for it. Then the guard of the functions of the forum lets the request
  -- pass, for the number of that user.
  pub WasFound-GoesTo :
      (db : W) (cfg : Config) (req : Request) (res : Response) (cs cookies : List NameValue)
      (passwd : Bytes) (refuse : Action W (Unit {0})) (next : Bytes → Action W (Unit {0}))
      (found : WasFound out cfg cs passwd cookies)
      → ((text : Bytes) → length (out.session.md5_digest text) ≡ 32)
      → IsReadBack out.session found.signed_in.entries
      → IsCurrent out.session cfg req found.signed_in.entries
      → find_value cfg.sess_cookie req.cookies ≡ find_value cfg.sess_cookie cookies
      → GoesTo (signed_in out refuse next (start db cfg req res)) (next (to_string found.userid))
  WasFound-GoesTo db cfg req res cs cookies passwd refuse next found sizes archive current sent =
      let carries : Carries out.session cfg req found.signed_in.entries = record {
        sizes = sizes;
        back = archive.back;
        bytes = archive.bytes;
        current = current;
        sent = sent ∙ found.signed_in.signed;
      } in
      signed_in-GoesTo db cfg req res found.signed_in.entries (to_string found.userid) refuse next
        carries found.signed_in.named (is_empty-to_string found.userid)
