-- ===== src/Routes/Table.antt =====
-- Which function of src/route_dir_*.cpp each entry of the routing table of src/router.cpp points to.
use waspp.Base.{List, Bool, [], Bytes}
use waspp.Request.{Request}
use waspp.Response.{Response}
use waspp.Config.{Config}
use waspp.Router.{
  Route, forum_index_html, forum_index_jsonp, forum_show_html, forum_show_jsonp, forum_form_html,
  forum_form_jsonp, forum_del, forum_post, user_signin_html, user_auth, user_signup_html, user_post,
  user_signout, performance_test,
}
use waspp.Handler.{Env, Handled, handled, threw}
use waspp.Routes.{Action, State, World, Ended, goes_on, returned}
use waspp.Routes as Routes
use waspp.Routes.Forum as Forum
use waspp.Routes.User as User
use waspp.Routes.Performance as Performance

unfoldable pub run_route : {W : Type 0} → World W → Route → Action W (Unit {0})
run_route out forum_index_html = Forum.index_html out
run_route out forum_index_jsonp = Forum.index_jsonp out
run_route out forum_show_html = Forum.show_html out
run_route out forum_show_jsonp = Forum.show_jsonp out
run_route out forum_form_html = Forum.form_html out
run_route out forum_form_jsonp = Forum.form_jsonp out
run_route out forum_del = Forum.del
run_route out forum_post = Forum.post out
run_route out user_signin_html = User.signin_html out
run_route out user_auth = User.auth out
run_route out user_signup_html = User.signup_html out
run_route out user_post = User.post out
run_route out user_signout = User.signout
run_route out performance_test = Performance.test out

-- The state that a function starts in.
abbrev pub start : {W : Type 0} → W → Config → Request → Response → State W
start db cfg req res = record { cfg = cfg; req = req; res = res; entries = []; db = db; trace = [] }

-- What the handler sees of a function that has ended.
abbrev pub seen : {W : Type 0} → Ended W (Unit {0}) → Handled
seen (goes_on x s) = handled s.req s.res
seen (returned s) = handled s.req s.res
seen (Routes.threw s) = threw s.req

-- The handler's surroundings, made of the functions of the routes.
unfoldable pub environment :
    {W : Type 0} → World W → (Bytes → Bytes) → (List Bytes → Bytes → Bool) → W → Env
unfolding run_route
environment out gzip find db = record {
  func = λ route cfg req res. seen (run_route out route (start db cfg req res));
  files = out.files;
  gzip = gzip;
  find = find;
}
