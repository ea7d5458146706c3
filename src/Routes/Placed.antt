-- ===== src/Routes/Placed.antt =====
-- The statements that the functions of the routes run, src/route_dir_*.cpp, and the framing of their
-- responses.
pub mod Statements
pub mod User
use waspp.Base.{
  ℕ, ◌+◌, ◌≡◌, refl, List, [], ◌∷◌, ◌==◌, if◌then◌else◌, is_empty, not, equal, Bytes, codes, length,
  true, false, Bool, Option, none, some,
}
use waspp.Request.{Request}
use waspp.Response.{Response, set_cookie, delete_cookie}
use waspp.Response.Decimal.{to_string}
use waspp.Router.{
  Route, set_jsonp, forum_index_html, forum_index_jsonp, forum_show_html, forum_show_jsonp,
  forum_form_html, forum_form_jsonp, forum_del, forum_post, user_signin_html, user_auth,
  user_signup_html, user_post, user_signout, performance_test,
}
use waspp.Handler.Length.{Unframed}
use waspp.Routes.{
  Action, State, World, Row, Statement, Target, Bound, ErrorType, ◌>>=◌, ◌>>◌, pure, leave_if,
  or_throw, goes_on, by_text, db_etc, integer, string, unauthorized, err_none,
}
use waspp.Routes.Ends.{Keeps, ◌>>=-Keeps◌, pure-Keeps, leave_if-Keeps, or_throw-Keeps}
use waspp.Routes.Tidy.{
  Tidy, statement, change-Keeps, get_param-Keeps, sess_get-Keeps, redirect-Keeps, message-Keeps,
  open_session-Keeps, sess_put-Keeps, include-Keeps, error_page-Keeps, send_jsonp-Keeps,
  connect-Keeps, query-Keeps, call-Keeps, execute-Keeps,
}
use waspp.Routes.Entries.{AllowsUser, last_key-Keeps, save_entry-Keeps}
use waspp.Routes.Pages.{
  signed_in-Keeps, show_page-Keeps, show_index-Keeps, show_params-Keeps, refuse_jsonp-Keeps,
  read_forum-Keeps, rest_params-Keeps,
}
use Statements.{IsPlaced, reads-IsPlaced, user-IsPlaced}
use User.{sign_html-Keeps, auth-Keeps, user_post-Keeps, signout-Keeps}
use waspp.Routes.Forum as Forum
use waspp.Routes.Forum.{
  first_number, forum_items, last_key, rest_params, add_jsonp, read_forum, refuse_jsonp,
  insert_forum, update_forum,
}
use waspp.Routes.User.{require, drop_cookie, find_user, insert_user, strtol, insert_users}
use waspp.Routes.Performance as Performance
use waspp.Config.Init.{strtoull}
use waspp.Routes.Table.{run_route}

module _ {W : Type 0} (out : World W) where
  abbrev P : State W → Type 0
  P = Tidy IsPlaced

  page_html-Keeps : (page : Bytes) → Keeps P (Forum.page_html out page)
  unfolding Forum.page_html
  page_html-Keeps page =
      signed_in-Keeps out _ _ (redirect-Keeps _) λ userid. show_page-Keeps out page

  index_jsonp-Keeps : Keeps P (Forum.index_jsonp out)
  unfolding Forum.index_jsonp
  index_jsonp-Keeps =
      signed_in-Keeps out _ _ (refuse_jsonp-Keeps out) λ userid. show_index-Keeps out reads-IsPlaced

  params_jsonp-Keeps : Keeps P (Forum.params_jsonp out)
  unfolding Forum.params_jsonp
  params_jsonp-Keeps =
      signed_in-Keeps out _ _ (refuse_jsonp-Keeps out) λ userid. show_params-Keeps out

  forum_post-Keeps : Keeps P (Forum.post out)
  unfolding Forum.post
  forum_post-Keeps =
      signed_in-Keeps out _ _ (redirect-Keeps _)
        λ userid. save_entry-Keeps out IsPlaced userid (user-IsPlaced (strtoull userid))

  test-Keeps : Keeps P (Performance.test out)
  unfolding Performance.test
  test-Keeps = open_session-Keeps out >>=-Keeps λ _.
      sess_put-Keeps out (codes "userid") (codes "test") >>=-Keeps λ _.
      message-Keeps err_none >>=-Keeps λ m. sess_get-Keeps (codes "userid") >>=-Keeps λ userid.
      sess_get-Keeps (codes "username") >>=-Keeps λ username. rest_params-Keeps >>=-Keeps λ rest.
      read_forum-Keeps out reads-IsPlaced (by_text (codes "db_etc")) >>=-Keeps λ read.
      send_jsonp-Keeps out _

  pub run_route-Keeps : (route : Route) → Keeps (Tidy IsPlaced) (run_route out route)
  unfolding run_route Forum.del
  run_route-Keeps forum_index_html = page_html-Keeps _
  run_route-Keeps forum_index_jsonp = index_jsonp-Keeps
  run_route-Keeps forum_show_html = page_html-Keeps _
  run_route-Keeps forum_show_jsonp = params_jsonp-Keeps
  run_route-Keeps forum_form_html = page_html-Keeps _
  run_route-Keeps forum_form_jsonp = params_jsonp-Keeps
  run_route-Keeps forum_del = pure-Keeps tt
  run_route-Keeps forum_post = forum_post-Keeps
  run_route-Keeps user_signin_html = sign_html-Keeps out _
  run_route-Keeps user_auth = auth-Keeps out
  run_route-Keeps user_signup_html = sign_html-Keeps out _
  run_route-Keeps user_post = user_post-Keeps out
  run_route-Keeps user_signout = signout-Keeps out
  run_route-Keeps performance_test = test-Keeps
