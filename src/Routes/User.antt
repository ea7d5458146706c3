-- ===== src/Routes/User.antt =====
-- src/route_dir_user.cpp
use Prim.Native.Nat.{min}
use waspp.Base.{
  ℕ, ◌-◌, ◌%◌, ◌^◌, [], ◌∷◌, ◌==◌, if◌then◌else◌, not, Bytes, codes, is_empty, equal, length,
}
use waspp.Response.{delete_cookie}
use waspp.Response.Decimal.{to_string}
use waspp.Strtol.{skip_spaces, read_signed}
use waspp.Routes.{
  Action, World, ◌>>=◌, ◌>>◌, pure, leave_if, get_param, redirect, ErrorType, username_required,
  passwd_required, username_not_found, auth_failed, platformtype_required, platformid_required,
  passwds_not_identical, username_not_available, users_insert_failed, by_text, integer, string,
  open_session, sess_put, include, error_page, connect, query, call, execute, goes_on,
}
use waspp.Routes.Forum.{first_number, last_key}

-- `strtol(s.c_str(), nullptr, 0)`, as the 64-bit pattern of a `long`.
abbrev pub strtol : Bytes → ℕ
strtol s =
    let (negative, value) = read_signed (skip_spaces s) in
    if negative then (2 ^ 64 - min value (2 ^ 63)) % 2 ^ 64 else min value (2 ^ 63 - 1)

abbrev pub insert_users : Bytes
insert_users =
    codes
      "INSERT INTO users(userid, platformid, username, passwd, platformtype, inserttime, updatetime) VALUES(?, ?, ?, ?, ?, NOW(), NOW())"

module _ {W : Type 0} where
  -- `if (req.param(name).empty())`, with the error of such a request.
  unfoldable pub require : World W → Bytes → ErrorType → Action W (Unit {0})
  require out name e = do value ← get_param name; leave_if (is_empty value) (error_page out e)

  -- `res.delete_cookie(cfg.sess_cookie())`
  unfoldable pub drop_cookie : Action W (Unit {0})
  drop_cookie s = goes_on tt (record s { res = delete_cookie s.res s.cfg.sess_cookie })

  unfoldable pub signout : Action W (Unit {0})
  signout = do drop_cookie; redirect (codes "/dir/user/signin")

module _ {W : Type 0} (out : World W) where
  -- The two functions that show a page.
  unfoldable pub sign_html : Bytes → Action W (Unit {0})
  sign_html page = do
    include out (codes "dir_include_header.html")
    include out page
    include out (codes "dir_include_footer.html")

  abbrev pub signin_html : Action W (Unit {0})
  signin_html = sign_html (codes "dir_user_signin.html")

  abbrev pub signup_html : Action W (Unit {0})
  signup_html = sign_html (codes "dir_user_signup.html")

  -- The two queries of `auth`: the user's number, by the name and then by the password.
  unfoldable pub find_user : Bytes → Action W ℕ
  find_user passwd = do
    shard_key ← get_param (codes "userid")
    connect out (by_text shard_key)
    username ← get_param (codes "username")
    named ←
        query out (by_text shard_key) (codes "SELECT userid FROM users WHERE username = ?")
          (string username ∷ [])
    leave_if (length named == 0) (error_page out username_not_found)
    userid ← first_number (codes "userid") named
    found ←
        query out (by_text shard_key)
          (codes "SELECT userid FROM users WHERE userid = ? AND passwd = ?")
          (integer userid ∷ string passwd ∷ [])
    leave_if (length found == 0) (error_page out auth_failed)
    pure userid

  -- The end of `auth`, for a user that was found.
  unfoldable pub sign_in : ℕ → Action W (Unit {0})
  sign_in userid = do
    open_session out
    sess_put out (codes "userid") (to_string userid)
    username ← get_param (codes "username")
    sess_put out (codes "username") username
    redirect (codes "/dir/forum/index")

  unfoldable pub auth : Action W (Unit {0})
  unfolding require find_user sign_in
  auth = do
    require out (codes "username") username_required
    require out (codes "passwd") passwd_required
    passwd ← get_param (codes "passwd")
    userid ← find_user (out.session.md5_digest passwd)
    sign_in userid

  -- What `post` does to the database: is the name free, which number is the next, and the new user.
  unfoldable pub insert_user : Bytes → Action W (Unit {0})
  insert_user md5_passwd = do
    shard_key ← get_param (codes "username")
    connect out (by_text shard_key)
    username ← get_param (codes "username")
    named ←
        query out (by_text shard_key) (codes "SELECT userid FROM users WHERE username = ?")
          (string username ∷ [])
    leave_if (not (length named == 0)) (error_page out username_not_available)
    key ←
        call out (by_text shard_key) (codes "CALL USP_GET_UNIQUE_KEYS('users', ?)") (integer 1 ∷ [])
    userid ← last_key (λ r. r.number (codes "last_key")) key
    new_name ← get_param (codes "username")
    platformtype ← get_param (codes "platformtype")
    affected_rows ← execute out (by_text shard_key) insert_users (
        integer userid
        ∷ string (to_string userid)
        ∷ string new_name
        ∷ string md5_passwd
        ∷ integer (strtol platformtype)
        ∷ [])
    leave_if (affected_rows == 0) (error_page out users_insert_failed)

  -- `post`. The password is compared with `retypepasswd` as it was before that parameter is looked up.
  unfoldable pub post : Action W (Unit {0})
  unfolding require insert_user
  post = do
    require out (codes "platformid") platformid_required
    require out (codes "platformtype") platformtype_required
    require out (codes "username") username_required
    require out (codes "passwd") passwd_required
    passwd ← get_param (codes "passwd")
    retyped ← get_param (codes "retypepasswd")
    leave_if (not (equal passwd retyped)) (error_page out passwds_not_identical)
    digested ← get_param (codes "passwd")
    insert_user (out.session.md5_digest digested)
    redirect (codes "/dir/user/signin")
