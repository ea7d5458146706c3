-- ===== src/Routes/Confined/Forum.antt =====
-- Which files the functions of src/route_dir_forum.cpp and src/route_dir_performance.cpp depend on.
use waspp.Base.{ℕ, Bool, true, false, ◌==◌, if◌then◌else◌, is_empty, Bytes, codes, Option}
use waspp.Config.{Config}
use waspp.Config.Init.{strtoull}
use waspp.Router.{set_jsonp}
use waspp.Routes.{
  Action, World, Target, ErrorType, by_text, db_etc, unauthorized, err_none, forum_insert_failed,
  title_required, content_required, error_page,
}
use waspp.Routes.Entries.{last_key-Keeps}
use waspp.Routes.Pages.{first_number-Keeps, forum_items-Keeps}
use waspp.Routes.Forum as Forum
use waspp.Routes.Forum.{
  first_number, forum_items, last_key, rest_params, add_jsonp, read_forum, refuse_jsonp, signed_in,
  show_page, show_index, show_params, create_entry, update_entry, save_entry,
}
use waspp.Routes.Performance.{test}
use waspp.Routes.Confined.Steps.{
  Same, ◌>>=-Same◌, unchanged, pure-Same, leave_if-Same, change-Same, get_param-Same, sess_get-Same,
  redirect-Same, message-Same, open_session-Same, sess_put-Same, include-Same, send_jsonp-Same,
  connect-Same, query-Same, call-Same, execute-Same, other, Agrees,
}

module _ {W : Type 0} (base : Config) where
  rest_params-Same : Same {W = W} base rest_params rest_params
  unfolding rest_params
  rest_params-Same = unchanged (record { ends = λ s e. e })

  add_jsonp-Same : Same {W = W} base add_jsonp add_jsonp
  unfolding add_jsonp set_jsonp
  add_jsonp-Same = unchanged (record { ends = λ s e. e })

module _ {W : Type 0} (out : World W) (files : Bytes → Option Bytes) (base : Config) where
  abbrev out' : World W
  out' = other out files base

  read_forum-Same : (t : Target) → Same base (read_forum out t) (read_forum out' t)
  unfolding read_forum
  read_forum-Same t = connect-Same out files base t >>=-Same λ _.
      query-Same out files base t _ _ >>=-Same λ counted.
      unchanged (first_number-Keeps (codes "total_count") counted) >>=-Same λ total.
      query-Same out files base t _ _ >>=-Same λ rows.
      unchanged (forum_items-Keeps rows) >>=-Same λ items. pure-Same (total, items)

  refuse_jsonp-Same : Same base (refuse_jsonp out) (refuse_jsonp out')
  unfolding refuse_jsonp
  refuse_jsonp-Same = message-Same unauthorized >>=-Same λ m. send_jsonp-Same out files base _

  signed_in-Same :
      {refuse refuse' : Action W (Unit {0})} {next next' : Bytes → Action W (Unit {0})}
      → Same base refuse refuse'
      → ((userid : Bytes) → Same base (next userid) (next' userid))
      → Same base (signed_in out refuse next) (signed_in out' refuse' next')
  unfolding signed_in
  signed_in-Same h k = open_session-Same out files base >>=-Same λ _.
      sess_get-Same (codes "userid") >>=-Same λ userid.
      leave_if-Same (is_empty userid) h >>=-Same λ _. k userid

  show_index-Same : Same base (show_index out) (show_index out')
  unfolding show_index
  show_index-Same = message-Same err_none >>=-Same λ m.
      sess_get-Same (codes "userid") >>=-Same λ userid.
      sess_get-Same (codes "username") >>=-Same λ username. rest_params-Same base >>=-Same λ rest.
      read_forum-Same db_etc >>=-Same λ read. send_jsonp-Same out files base _

  pub index_jsonp-Same : Same base (Forum.index_jsonp out) (Forum.index_jsonp out')
  unfolding Forum.index_jsonp
  index_jsonp-Same = signed_in-Same refuse_jsonp-Same λ userid. show_index-Same

  show_params-Same : Same base (show_params out) (show_params out')
  unfolding show_params
  show_params-Same = message-Same err_none >>=-Same λ m.
      sess_get-Same (codes "userid") >>=-Same λ userid.
      sess_get-Same (codes "username") >>=-Same λ username.
      rest_params-Same base >>=-Same λ rest. send_jsonp-Same out files base _

  pub params_jsonp-Same : Same base (Forum.params_jsonp out) (Forum.params_jsonp out')
  unfolding Forum.params_jsonp
  params_jsonp-Same = signed_in-Same refuse_jsonp-Same λ userid. show_params-Same

  pub test-Same : Same base (test out) (test out')
  unfolding test
  test-Same = open_session-Same out files base >>=-Same λ _.
      sess_put-Same out files base (codes "userid") (codes "test") >>=-Same λ _.
      message-Same err_none >>=-Same λ m. sess_get-Same (codes "userid") >>=-Same λ userid.
      sess_get-Same (codes "username") >>=-Same λ username. rest_params-Same base >>=-Same λ rest.
      read_forum-Same (by_text (codes "db_etc")) >>=-Same λ read. send_jsonp-Same out files base _

-- The file systems agree on the head and the foot of the pages.
module _ {W : Type 0} (out : World W) (files : Bytes → Option Bytes) (base : Config)
    (head : Agrees out files base (codes "dir_include_header.html"))
    (foot : Agrees out files base (codes "dir_include_footer.html")) where
  pub page_html-Same :
      (page : Bytes)
      → Agrees out files base page
      → Same base (Forum.page_html out page) (Forum.page_html (other out files base) page)
  unfolding Forum.page_html show_page
  page_html-Same page agrees = signed_in-Same out files base (redirect-Same _) λ userid.
      include-Same out files base (codes "dir_include_header.html") head >>=-Same λ _.
      include-Same out files base page agrees >>=-Same λ _. add_jsonp-Same base >>=-Same λ _.
      include-Same out files base (codes "dir_include_footer.html") foot

  pub error_page-Same :
      (e : ErrorType) → Same base (error_page out e) (error_page (other out files base) e)
  unfolding error_page
  error_page-Same e = change-Same _ >>=-Same λ _.
      include-Same out files base (codes "dir_include_header.html") head >>=-Same λ _.
      message-Same e >>=-Same λ m. change-Same _ >>=-Same λ _.
      include-Same out files base (codes "dir_include_footer.html") foot >>=-Same λ _. change-Same _

  create_entry-Same :
      (userid : ℕ)
      → Same base (create_entry out userid) (create_entry (other out files base) userid)
  unfolding create_entry
  create_entry-Same userid = call-Same out files base _ _ _ >>=-Same λ key.
      unchanged (last_key-Keeps _ key) >>=-Same λ seq.
      get_param-Same (codes "title") >>=-Same λ title.
      get_param-Same (codes "content") >>=-Same λ content.
      sess_get-Same (codes "username") >>=-Same λ username.
      execute-Same out files base _ _ _ >>=-Same λ affected_rows.
      leave_if-Same (affected_rows == 0) (error_page-Same forum_insert_failed)

  update_entry-Same :
      (seq userid : ℕ)
      → Same base (update_entry out seq userid) (update_entry (other out files base) seq userid)
  unfolding update_entry
  update_entry-Same seq userid = get_param-Same (codes "title") >>=-Same λ title.
      get_param-Same (codes "content") >>=-Same λ content.
      get_param-Same (codes "username") >>=-Same λ username.
      execute-Same out files base _ _ _ >>=-Same λ affected_rows. pure-Same tt

  save_at-Same :
      (c : Bool) (seq userid : ℕ)
      → Same base (if c then create_entry out userid else update_entry out seq userid) (
          if c
          then create_entry (other out files base) userid
          else update_entry (other out files base) seq userid)
  save_at-Same true seq userid = create_entry-Same userid
  save_at-Same false seq userid = update_entry-Same seq userid

  save_entry-Same :
      (userid : Bytes)
      → Same base (save_entry out userid) (save_entry (other out files base) userid)
  unfolding save_entry
  save_entry-Same userid = get_param-Same (codes "seq") >>=-Same λ seq_text.
      get_param-Same (codes "title") >>=-Same λ title.
      leave_if-Same (is_empty title) (error_page-Same title_required) >>=-Same λ _.
      get_param-Same (codes "content") >>=-Same λ content.
      leave_if-Same (is_empty content) (error_page-Same content_required) >>=-Same λ _.
      connect-Same out files base (by_text (codes "db_etc")) >>=-Same λ _.
      save_at-Same _ _ (strtoull userid) >>=-Same λ _. redirect-Same (codes "/dir/forum/index")

  pub forum_post-Same : Same base (Forum.post out) (Forum.post (other out files base))
  unfolding Forum.post
  forum_post-Same = signed_in-Same out files base (redirect-Same _) λ userid. save_entry-Same userid
