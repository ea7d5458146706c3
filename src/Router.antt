-- ===== src/Router.antt =====
-- src/router.cpp: the routing table, and files from the document root.
pub mod Paths
use waspp.Base.{
  Bool, false, List, [], ◌∷◌, ◌++◌, ◌==◌, if◌then◌else◌, Bytes, codes, starts_with, Option, none,
  some,
}
use waspp.Request.{Request}
use waspp.Response.{Response}
use waspp.Utility.Text.{get_extension}
unfoldable pub use Paths.*
use waspp.Config.{Config}

-- The functions that the table points to.
pub data Route : Type 0 where
  forum_index_html forum_index_jsonp forum_show_html forum_show_jsonp forum_form_html : Route
  forum_form_jsonp forum_del forum_post user_signin_html user_auth user_signup_html user_post :
      Route
  user_signout performance_test : Route

abbrev pub routes : List (Bytes × Route)
routes =
    (codes "/dir/forum/index/", forum_index_html)
    ∷ (codes "/_/dir/forum/index/", forum_index_jsonp)
    ∷ (codes "/dir/forum/show/", forum_show_html)
    ∷ (codes "/_/dir/forum/show/", forum_show_jsonp)
    ∷ (codes "/dir/forum/form/", forum_form_html)
    ∷ (codes "/_/dir/forum/form/", forum_form_jsonp)
    ∷ (codes "/dir/forum/del/", forum_del)
    ∷ (codes "/dir/forum/post/", forum_post)
    ∷ (codes "/dir/user/signin/", user_signin_html)
    ∷ (codes "/dir/user/auth/", user_auth)
    ∷ (codes "/dir/user/signup/", user_signup_html)
    ∷ (codes "/dir/user/post/", user_post)
    ∷ (codes "/dir/user/signout/", user_signout)
    ∷ (codes "/dir/performance/test/", performance_test)
    ∷ []

-- The first entry whose URI the request's URI begins with.
unfoldable pub find_route : List (Bytes × Route) → Bytes → Option Route
find_route [] uri = none
find_route ((prefix, func) ∷ rs) uri =
    if starts_with uri prefix then some func else find_route rs uri

unfoldable pub get_func : Bytes → Option Route
unfolding find_route with_slash
get_func request_uri = find_route routes (with_slash request_uri)

unfoldable pub full_path : Config → Bytes → Bytes
unfolding ends_in_slash
full_path cfg request_path =
    let path = cfg.doc_root ++ request_path in
    if ends_in_slash path then path ++ codes "/index.html" else path

-- The argument `files` is the file system: the bytes of a file that can be opened.
unfoldable pub get_file : (Bytes → Option Bytes) → Config → Response → Bytes → Option Response
unfolding full_path
get_file files cfg res request_path = elim (files (full_path cfg request_path)) [
  | none ↦ none
  | some bytes ↦ some (record res {
    content = res.content ++ bytes;
    content_extension = get_extension (full_path cfg request_path);
  })
]

unfoldable pub set_jsonp : Request → Response → Response
set_jsonp req res = record res {
  content =
      res.content
      ++ (codes "\n<script src='/_.js'></script>\n<script src='/_"
          ++ (req.uri ++ codes "'></script>\n"));
}
