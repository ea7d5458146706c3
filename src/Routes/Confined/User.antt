-- ===== src/Routes/Confined/User.antt =====
-- Which files the functions of src/route_dir_user.cpp depend on.
use waspp.Base.{ℕ, ◌==◌, is_empty, not, equal, Bytes, codes, length, Option}
use waspp.Config.{Config}
use waspp.Routes.{World, ErrorType, by_text}
use waspp.Routes.Entries.{last_key-Keeps}
use waspp.Routes.Pages.{first_number-Keeps}
use waspp.Routes.User as User
use waspp.Routes.User.{require, drop_cookie, find_user, insert_user, sign_in}
use waspp.Routes.Confined.Steps.{
  Same, ◌>>=-Same◌, unchanged, pure-Same, leave_if-Same, get_param-Same, redirect-Same,
  open_session-Same, sess_put-Same, include-Same, connect-Same, query-Same, call-Same, execute-Same,
  other, Agrees,
}
use waspp.Routes.Confined.Forum.{error_page-Same}

pub signout-Same : {W : Type 0} (base : Config) → Same {W = W} base User.signout User.signout
unfolding User.signout drop_cookie
signout-Same base =
    unchanged (record { ends = λ s e. e }) >>=-Same λ _. redirect-Same (codes "/dir/user/signin")

module _ {W : Type 0} (out : World W) (files : Bytes → Option Bytes) (base : Config)
    (head : Agrees out files base (codes "dir_include_header.html"))
    (foot : Agrees out files base (codes "dir_include_footer.html")) where
  abbrev out' : World W
  out' = other out files base

  pub sign_html-Same :
      (page : Bytes)
      → Agrees out files base page
      → Same base (User.sign_html out page) (User.sign_html out' page)
  unfolding User.sign_html
  sign_html-Same page agrees =
      include-Same out files base (codes "dir_include_header.html") head >>=-Same λ _.
      include-Same out files base page agrees >>=-Same λ _.
      include-Same out files base (codes "dir_include_footer.html") foot

  require-Same :
      (name : Bytes) (e : ErrorType) → Same base (require out name e) (require out' name e)
  unfolding require
  require-Same name e = get_param-Same name >>=-Same λ value.
      leave_if-Same (is_empty value) (error_page-Same out files base head foot e)

  find_user-Same : (passwd : Bytes) → Same base (find_user out passwd) (find_user out' passwd)
  unfolding find_user
  find_user-Same passwd = get_param-Same (codes "userid") >>=-Same λ shard_key.
      connect-Same out files base (by_text shard_key) >>=-Same λ _.
      get_param-Same (codes "username") >>=-Same λ username.
      query-Same out files base _ _ _ >>=-Same λ named.
      leave_if-Same (length named == 0) (error_page-Same out files base head foot _) >>=-Same λ _.
      unchanged (first_number-Keeps (codes "userid") named) >>=-Same λ userid.
      query-Same out files base _ _ _ >>=-Same λ found.
      leave_if-Same (length found == 0) (error_page-Same out files base head foot _) >>=-Same λ _.
      pure-Same userid

  sign_in-Same : (userid : ℕ) → Same base (sign_in out userid) (sign_in out' userid)
  unfolding sign_in
  sign_in-Same userid = open_session-Same out files base >>=-Same λ _.
      sess_put-Same out files base (codes "userid") _ >>=-Same λ _.
      get_param-Same (codes "username") >>=-Same λ username.
      sess_put-Same out files base (codes "username") username >>=-Same λ _.
      redirect-Same (codes "/dir/forum/index")

  pub auth-Same : Same base (User.auth out) (User.auth out')
  unfolding User.auth
  auth-Same = require-Same (codes "username") _ >>=-Same λ _.
      require-Same (codes "passwd") _ >>=-Same λ _.
      get_param-Same (codes "passwd") >>=-Same λ passwd.
      find_user-Same _ >>=-Same λ userid. sign_in-Same userid

  insert_user-Same : (passwd : Bytes) → Same base (insert_user out passwd) (insert_user out' passwd)
  unfolding insert_user
  insert_user-Same passwd = get_param-Same (codes "username") >>=-Same λ shard_key.
      connect-Same out files base (by_text shard_key) >>=-Same λ _.
      get_param-Same (codes "username") >>=-Same λ username.
      query-Same out files base _ _ _ >>=-Same λ named.
      leave_if-Same (not (length named == 0)) (error_page-Same out files base head foot _)
      >>=-Same λ _. call-Same out files base _ _ _ >>=-Same λ key.
          unchanged (last_key-Keeps _ key) >>=-Same λ userid.
          get_param-Same (codes "username") >>=-Same λ new_name.
          get_param-Same (codes "platformtype") >>=-Same λ platformtype.
          execute-Same out files base _ _ _ >>=-Same λ affected_rows.
          leave_if-Same (affected_rows == 0) (error_page-Same out files base head foot _)

  pub user_post-Same : Same base (User.post out) (User.post out')
  unfolding User.post
  user_post-Same = require-Same (codes "platformid") _ >>=-Same λ _.
      require-Same (codes "platformtype") _ >>=-Same λ _.
      require-Same (codes "username") _ >>=-Same λ _. require-Same (codes "passwd") _ >>=-Same λ _.
      get_param-Same (codes "passwd") >>=-Same λ passwd.
      get_param-Same (codes "retypepasswd") >>=-Same λ retyped.
      leave_if-Same (not (equal passwd retyped)) (error_page-Same out files base head foot _)
      >>=-Same λ _. get_param-Same (codes "passwd") >>=-Same λ digested.
          insert_user-Same _ >>=-Same λ _. redirect-Same (codes "/dir/user/signin")
