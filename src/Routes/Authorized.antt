-- ===== src/Routes/Authorized.antt =====
-- For whom the functions of src/route_dir_forum.cpp run their statements.
use waspp.Base.{
  subst, ℕ, Bool, true, false, ◌≡◌, ◌≢◌, ◌⊎◌, inl, inr, refl, sym, List, [], ◌∷◌, ◌||◌,
  if◌then◌else◌, equal, is_empty, Bytes, codes, Option, some, get_elem?, All, arith,
}
use waspp.Request.{Request, lookup}
use waspp.Response.{Response}
use waspp.Config.{Config}
use waspp.Config.Init.{strtoull}
use waspp.Router.{
  Route, forum_index_html, forum_index_jsonp, forum_show_html, forum_show_jsonp, forum_form_html,
  forum_form_jsonp, forum_del, forum_post,
}
use waspp.Handler.Length.{Unframed}
use waspp.Session as Session
use waspp.Session.{Loaded, accepted, refused}
use waspp.Session.Users.{IsUser, session-IsUser}
use waspp.Routes.{
  Action, State, World, Statement, Bound, integer, Ended, goes_on, returned, threw, open_session,
  sess_get, leave_if, leave, ◌>>=◌, ◌>>◌, after_session, with_session,
}
use waspp.Routes.Ends.{EndsIn, EndsIn-map, Keeps}
use waspp.Routes.Tidy.{Tidy, open_session-Keeps, redirect-Keeps}
use waspp.Routes.Entries.{AllowsUser, save_entry-Keeps}
use waspp.Routes.Pages.{
  AllowsReads, show_page-Keeps, show_index-Keeps, show_params-Keeps, refuse_jsonp-Keeps,
}
use waspp.Routes.Forum.{
  del, signed_in, page_html, index_jsonp, params_jsonp, post, insert_forum, update_forum,
}
use waspp.Routes.Table.{run_route, start}

-- The statements that write an entry, and the user's number among their values.
abbrev pub is_write : Statement → Bool
is_write st = equal st.sql insert_forum || equal st.sql update_forum

abbrev pub author : Statement → Option Bound
author st = get_elem? st.values (if equal st.sql insert_forum then 5 else 6)

abbrev pub IsFor : ℕ → Statement → Type 0
IsFor userid st = (is_write st ≡ false) ⊎ (author st ≡ some (integer userid))

IsFor-AllowsUser : (userid : ℕ) → AllowsUser (IsFor userid) userid
unfolding equal
IsFor-AllowsUser userid = record {
  key = inl refl;
  insert = λ seq title content username. inr refl;
  update = λ seq title content username. inr refl;
}

IsFor-AllowsReads : (userid : ℕ) → AllowsReads (IsFor userid)
unfolding equal
IsFor-AllowsReads userid = record { counts = λ t. inl refl; lists = λ t. inl refl }

-- The functions of the forum.
abbrev pub is_forum : Route → Bool
is_forum forum_index_html = true
is_forum forum_index_jsonp = true
is_forum forum_show_html = true
is_forum forum_show_jsonp = true
is_forum forum_form_html = true
is_forum forum_form_jsonp = true
is_forum forum_del = true
is_forum forum_post = true
is_forum _ = false

-- The request carries the signed cookie of a user, and the statements that write an entry write it for
-- that user.
pub record Authorized {W : Type 0} (out : World W) (cfg : Config) (req : Request) (res : Response)
    (trace : List Statement) : Type 0 where
  pub userid : Bytes
  pub user : IsUser out.session cfg (record { entries = []; req = req; res = res }) userid
  pub owned : All (IsFor (strtoull userid)) trace

-- No statement was run, or those that were run are authorized.
abbrev pub IsAuthorized : {W : Type 0} → World W → Config → Request → Response → State W → Type 0
IsAuthorized out cfg req res t = (t.trace ≡ []) ⊎ Authorized out cfg req res t.trace

abbrev Never : Statement → Type 0
Never st = ⊥

Never-trace : (trace : List Statement) → All Never trace → trace ≡ []
Never-trace [] h = refl
Never-trace (st ∷ trace) h = absurd h.0

session-refused :
    (out : Session.Outside) (cfg : Config) (s t : Session.Session)
    → Session.session out cfg s ≢ refused t
unfolding Session.session
session-refused out cfg s t e = ground arith

module _ {W : Type 0} (out : World W) where
  Never-Tidy : (Q : Statement → Type 0) (t : State W) → Tidy Never t → Tidy Q t
  Never-Tidy Q t h = record {
    unframed = h.unframed;
    allowed = subst (All Q) (sym (Never-trace t.trace h.allowed)) tt;
  }

  -- What a function does for a user that is signed in.
  abbrev IsForUser : (Bytes → Action W (Unit {0})) → Type 0
  IsForUser next = (userid : Bytes) → Keeps (Tidy (IsFor (strtoull userid))) (next userid)

  module _ (refuse : Action W (Unit {0})) (next : Bytes → Action W (Unit {0})) (s : State W)
      (h : Keeps (Tidy Never) refuse) (k : IsForUser next) where
    abbrev R : State W → Type 0
    R = IsAuthorized out s.cfg s.req s.res

    abbrev IsUserHere : Bytes → Type 0
    IsUserHere userid =
        IsUser out.session s.cfg (record { entries = []; req = s.req; res = s.res }) userid

    Never-R : (t : State W) → Tidy Never t → R t
    Never-R t p = inl (Never-trace t.trace p.allowed)

    refused-R :
        (e : Ended W (Unit {0})) (userid : Bytes)
        → EndsIn (Tidy Never) e
        → EndsIn R ((((λ t. e) >> leave {A = Unit {0}}) >>= λ _. next userid) s)
    unfolding ◌>>=◌
    refused-R (goes_on a t) userid p = Never-R t p
    refused-R (returned t) userid p = Never-R t p
    refused-R (threw t) userid p = Never-R t p

    leave_if-R :
        (c : Bool) (userid : Bytes) (t : State W)
        → Tidy Never t
        → (c ≡ false → IsUserHere userid)
        → EndsIn R ((leave_if c refuse >>= λ _. next userid) t)
    unfolding ◌>>=◌ leave_if
    leave_if-R true userid t p user = refused-R (refuse t) userid (h.ends t p)
    leave_if-R false userid t p user =
        EndsIn-map (Tidy (IsFor (strtoull userid))) R (next userid t)
          (λ t' q. inr (record { userid = userid; user = user refl; owned = q.allowed }))
          ((k userid).ends t (Never-Tidy (IsFor (strtoull userid)) t p))

    opened-R :
        (result : Loaded)
        → Session.session out.session s.cfg (record { entries = []; req = s.req; res = s.res })
          ≡ result
        → EndsIn (Tidy Never) (after_session out s result)
        → EndsIn R (
            ((λ t. after_session out s result) >>= λ _. sess_get (codes "userid") >>= λ userid.
            leave_if (is_empty userid) refuse >>= λ _. next userid)
              s)
    unfolding ◌>>=◌ sess_get Session.get
    opened-R (accepted t) e p =
        let userid = (lookup (codes "userid") t.entries).0 in
        leave_if-R (is_empty userid) userid _
          (record { unframed = p.unframed; allowed = p.allowed })
          (session-IsUser out.session s.cfg _ t e)
    opened-R (refused t) e p = absurd (session-refused out.session s.cfg _ t e)
    opened-R (Loaded.threw t) e p = Never-R (with_session out s t) p

    signed_in-R : Tidy Never s → EndsIn R (signed_in out refuse next s)
    unfolding signed_in open_session ◌>>=◌
    signed_in-R p =
        opened-R
          (Session.session out.session s.cfg (record { entries = []; req = s.req; res = s.res }))
          refl ((open_session-Keeps out).ends s p)

  -- However a function of the forum ends, it ran no statement, or the request carried a cookie that is
  -- signed with the key and whose entries name a user, and every statement that wrote an entry
  -- wrote it for that user; the response has no `Content-Length` header at the start.
  pub run_route-IsAuthorized :
      (route : Route) (db : W) (cfg : Config) (req : Request) (res : Response)
      → is_forum route ≡ true
      → Unframed res
      → EndsIn (IsAuthorized out cfg req res) (run_route out route (start db cfg req res))
  unfolding run_route page_html index_jsonp params_jsonp post del
  run_route-IsAuthorized route db cfg req res h unframed = by_route route h
    where
      s : State W
      s = start db cfg req res

      tidy : Tidy Never s
      tidy = record { unframed = unframed; allowed = tt }

      by_page : (page : Bytes) → EndsIn (IsAuthorized out cfg req res) (page_html out page s)
      by_page page = signed_in-R _ _ s (redirect-Keeps _) (λ userid. show_page-Keeps out page) tidy

      by_params : EndsIn (IsAuthorized out cfg req res) (params_jsonp out s)
      by_params = signed_in-R _ _ s (refuse_jsonp-Keeps out) (λ userid. show_params-Keeps out) tidy

      by_route :
          (r : Route)
          → is_forum r ≡ true
          → EndsIn (IsAuthorized out cfg req res) (run_route out r s)
      by_route forum_index_html h = by_page _
      by_route forum_index_jsonp h =
          signed_in-R _ _ s (refuse_jsonp-Keeps out)
            (λ userid. show_index-Keeps out (IsFor-AllowsReads (strtoull userid))) tidy
      by_route forum_show_html h = by_page _
      by_route forum_show_jsonp h = by_params
      by_route forum_form_html h = by_page _
      by_route forum_form_jsonp h = by_params
      by_route forum_del h = inl refl
      by_route forum_post h =
          signed_in-R _ _ s (redirect-Keeps _)
            (λ userid.
              save_entry-Keeps out (IsFor (strtoull userid)) userid
                (IsFor-AllowsUser (strtoull userid)))
            tidy
      by_route _ h = absurd (ground arith)
