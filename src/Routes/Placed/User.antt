-- ===== src/Routes/Placed/User.antt =====
-- src/route_dir_user.cpp: its statements, and the framing of its responses.
use waspp.Base.{ℕ, refl, ◌==◌, is_empty, not, equal, Bytes, codes, length}
use waspp.Response.{set_cookie, delete_cookie}
use waspp.Routes.{State, World, ErrorType, by_text}
use waspp.Routes.Ends.{Keeps, ◌>>=-Keeps◌, pure-Keeps, leave_if-Keeps}
use waspp.Routes.Tidy.{
  Tidy, get_param-Keeps, redirect-Keeps, open_session-Keeps, sess_put-Keeps, include-Keeps,
  error_page-Keeps, connect-Keeps, query-Keeps, call-Keeps, execute-Keeps,
}
use waspp.Routes.Entries.{last_key-Keeps}
use waspp.Routes.Pages.{first_number-Keeps}
use waspp.Routes.Placed.Statements.{IsPlaced, placeholders}
use waspp.Routes.User as User
use waspp.Routes.User.{sign_in, require, drop_cookie, find_user, insert_user, strtol, insert_users}

module _ {W : Type 0} (out : World W) where
  abbrev P : State W → Type 0
  P = Tidy IsPlaced

  pub sign_html-Keeps : (page : Bytes) → Keeps P (User.sign_html out page)
  unfolding User.sign_html
  sign_html-Keeps page = include-Keeps out (codes "dir_include_header.html") >>=-Keeps λ _.
      include-Keeps out page >>=-Keeps λ _. include-Keeps out (codes "dir_include_footer.html")

  require-Keeps : (name : Bytes) (e : ErrorType) → Keeps P (require out name e)
  unfolding require
  require-Keeps name e = get_param-Keeps name >>=-Keeps λ value.
      leave_if-Keeps (is_empty value) (error_page-Keeps out e)

  find_user-Keeps : (passwd : Bytes) → Keeps P (find_user out passwd)
  unfolding find_user placeholders
  find_user-Keeps passwd = get_param-Keeps (codes "userid") >>=-Keeps λ shard_key.
      connect-Keeps out (by_text shard_key) >>=-Keeps λ _.
      get_param-Keeps (codes "username") >>=-Keeps λ username.
      query-Keeps out _ _ _ refl >>=-Keeps λ named.
      leave_if-Keeps (length named == 0) (error_page-Keeps out _) >>=-Keeps λ _.
      first_number-Keeps (codes "userid") named >>=-Keeps λ userid.
      query-Keeps out _ _ _ refl >>=-Keeps λ found.
      leave_if-Keeps (length found == 0) (error_page-Keeps out _) >>=-Keeps λ _. pure-Keeps userid

  sign_in-Keeps : (userid : ℕ) → Keeps P (sign_in out userid)
  unfolding sign_in
  sign_in-Keeps userid = open_session-Keeps out >>=-Keeps λ _.
      sess_put-Keeps out (codes "userid") _ >>=-Keeps λ _.
      get_param-Keeps (codes "username") >>=-Keeps λ username.
      sess_put-Keeps out (codes "username") username >>=-Keeps λ _.
      redirect-Keeps (codes "/dir/forum/index")

  pub auth-Keeps : Keeps P (User.auth out)
  unfolding User.auth
  auth-Keeps = require-Keeps (codes "username") _ >>=-Keeps λ _.
      require-Keeps (codes "passwd") _ >>=-Keeps λ _.
      get_param-Keeps (codes "passwd") >>=-Keeps λ passwd.
      find_user-Keeps _ >>=-Keeps λ userid. sign_in-Keeps userid

  insert_user-Keeps : (passwd : Bytes) → Keeps P (insert_user out passwd)
  unfolding insert_user placeholders
  insert_user-Keeps passwd = get_param-Keeps (codes "username") >>=-Keeps λ shard_key.
      connect-Keeps out (by_text shard_key) >>=-Keeps λ _.
      get_param-Keeps (codes "username") >>=-Keeps λ username.
      query-Keeps out _ _ _ refl >>=-Keeps λ named.
      leave_if-Keeps (not (length named == 0)) (error_page-Keeps out _) >>=-Keeps λ _.
      call-Keeps out _ _ _ refl >>=-Keeps λ key. last_key-Keeps _ key >>=-Keeps λ userid.
      get_param-Keeps (codes "username") >>=-Keeps λ new_name.
      get_param-Keeps (codes "platformtype") >>=-Keeps λ platformtype.
      execute-Keeps out _ _ _ refl >>=-Keeps λ affected_rows.
      leave_if-Keeps (affected_rows == 0) (error_page-Keeps out _)

  pub user_post-Keeps : Keeps P (User.post out)
  unfolding User.post
  user_post-Keeps = require-Keeps (codes "platformid") _ >>=-Keeps λ _.
      require-Keeps (codes "platformtype") _ >>=-Keeps λ _.
      require-Keeps (codes "username") _ >>=-Keeps λ _.
      require-Keeps (codes "passwd") _ >>=-Keeps λ _.
      get_param-Keeps (codes "passwd") >>=-Keeps λ passwd.
      get_param-Keeps (codes "retypepasswd") >>=-Keeps λ retyped.
      leave_if-Keeps (not (equal passwd retyped)) (error_page-Keeps out _) >>=-Keeps λ _.
      get_param-Keeps (codes "passwd") >>=-Keeps λ digested.
      insert_user-Keeps _ >>=-Keeps λ _. redirect-Keeps (codes "/dir/user/signin")

  pub signout-Keeps : Keeps P User.signout
  unfolding User.signout drop_cookie delete_cookie set_cookie
  signout-Keeps =
      record { ends = λ s p. record { unframed = p.unframed; allowed = p.allowed } } >>=-Keeps λ _.
      redirect-Keeps (codes "/dir/user/signin")
