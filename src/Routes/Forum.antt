-- ===== src/Routes/Forum.antt =====
-- src/route_dir_forum.cpp
use waspp.Base.{
  ℕ, List, [], ◌∷◌, ◌==◌, if◌then◌else◌, Bytes, codes, Option, none, some, is_empty, ltb, length,
  get_elem?,
}
use waspp.Response.Decimal.{to_string}
use waspp.Router.{set_jsonp}
use waspp.Config.Init.{strtoull}
use waspp.Routes.{
  Target, Action, World, Row, goes_on, ◌>>=◌, ◌>>◌, pure, leave_if, or_throw, get_param, sess_get,
  redirect, message, ErrorType, error_code, err_none, unauthorized, title_required,
  content_required, forum_insert_failed, by_text, db_etc, integer, string, open_session, include,
  error_page, send_jsonp, connect, query, call, execute,
}
use waspp.Routes.Trees.{Json, Members, leaf, tree, done, member, array}

-- The members `_code` and `_message`.
abbrev pub error_tree : ErrorType → Bytes → Json
error_tree e m = tree (
    member (codes "_code") (leaf (to_string (error_code e)))
      (member (codes "_message") (leaf m) done))

abbrev pub session_tree : Bytes → Bytes → Json
session_tree userid username =
    tree (member (codes "_userid") (leaf userid) (member (codes "_username") (leaf username) done))

-- The field and the keyword of a search, which stand at 4 and 5 among more than five parameters.
abbrev text_at : ℕ → List Bytes → Bytes
text_at i xs = elim (get_elem? xs i) [ none ↦ [] | some x ↦ x ]

unfoldable pub search_tree : List Bytes → Json
search_tree rest =
    let long = ltb 5 (length rest) in
    tree (
      member (codes "_field") (leaf (if long then text_at 4 rest else []))
        (member (codes "_keyword") (leaf (if long then text_at 5 rest else [])) done))

abbrev pub pagination_tree : ℕ → Json
pagination_tree total = tree (
    member (codes "_total_count") (leaf (to_string total)) (
      member (codes "_page_count") (leaf (codes "10"))
        (member (codes "_link_count") (leaf (codes "10")) done)))

unfoldable pub index_tree : Bytes → Bytes → Bytes → List Bytes → ℕ → Members → Json
index_tree m userid username rest total items = tree (
    member (codes "_error") (error_tree err_none m) (
      member (codes "_session") (session_tree userid username) (
        member (codes "_forum_search") (search_tree rest) (
          member (codes "_forum_index") (tree items)
            (member (codes "_pagination") (pagination_tree total) done)))))

abbrev pub count_forum : Bytes
count_forum = codes "SELECT COUNT(seq) AS total_count FROM forum"

abbrev pub select_forum : Bytes
select_forum = codes "SELECT * FROM forum ORDER BY seq DESC"

abbrev pub insert_forum : Bytes
insert_forum =
    codes
      "INSERT INTO forum(seq, title, content, file1, file2, userid, username, inserttime, updatetime) VALUES(?, ?, ?, ?, ?, ?, ?, NOW(), NOW())"

abbrev pub update_forum : Bytes
update_forum =
    codes
      "UPDATE forum SET title = ?, content = ?, file1 = ?, file2 = ?, username = ?, updatetime = NOW() WHERE seq = ? AND userid = ?"

module _ {W : Type 0} where
  -- The first row's number, where there is a row, and 0 otherwise.
  unfoldable pub first_number : Bytes → List Row → Action W ℕ
  first_number name [] = pure 0
  first_number name (r ∷ rs) = or_throw (r.number name)

  -- The loop over the rows of the forum.
  unfoldable pub forum_items : List Row → Action W Members
  forum_items [] = pure done
  forum_items (r ∷ rs) = do
    seq ← or_throw (r.number (codes "seq"))
    title ← or_throw (r.text (codes "title"))
    username ← or_throw (r.text (codes "username"))
    updatetime ← or_throw (r.text (codes "updatetime"))
    items ← forum_items rs
    let item = tree (
        member (codes "_seq") (leaf (to_string seq)) (
          member (codes "_title") (leaf title) (
            member (codes "_username") (leaf username)
              (member (codes "_updatetime") (leaf updatetime) done))))
    pure (member [] item items)

  -- `req.rest_params`, and `set_jsonp(req, res)`
  unfoldable pub rest_params : Action W (List Bytes)
  rest_params s = goes_on s.req.rest_params s

  unfoldable pub add_jsonp : Action W (Unit {0})
  add_jsonp s = goes_on tt (record s { res = set_jsonp s.req s.res })

  -- `del`
  unfoldable pub del : Action W (Unit {0})
  del = pure tt

  -- `rs->get<unsigned int>("last_key")` where `fetch(true)` finds a row, and the number as it was
  -- otherwise.
  unfoldable pub last_key : (Row → Option ℕ) → Option Row → Action W ℕ
  last_key read none = pure 0
  last_key read (some r) = or_throw (read r)

module _ {W : Type 0} (out : World W) where
  -- How each function begins: a client that is not signed in is refused.
  unfoldable pub signed_in :
      Action W (Unit {0}) → (Bytes → Action W (Unit {0})) → Action W (Unit {0})
  signed_in refuse next = do
    open_session out
    userid ← sess_get (codes "userid")
    leave_if (is_empty userid) refuse
    next userid

  unfoldable pub show_page : Bytes → Action W (Unit {0})
  show_page page = do
    include out (codes "dir_include_header.html")
    include out page
    add_jsonp
    include out (codes "dir_include_footer.html")

  -- The three functions that show a page.
  unfoldable pub page_html : Bytes → Action W (Unit {0})
  unfolding signed_in show_page
  page_html page = signed_in (redirect (codes "/dir/user/signin")) λ userid. show_page page

  abbrev pub index_html : Action W (Unit {0})
  index_html = page_html (codes "dir_forum_index.html")

  abbrev pub show_html : Action W (Unit {0})
  show_html = page_html (codes "dir_forum_show.html")

  abbrev pub form_html : Action W (Unit {0})
  form_html = page_html (codes "dir_forum_form.html")

  -- The answer of a JSONP function to a client that is not signed in.
  unfoldable pub refuse_jsonp : Action W (Unit {0})
  refuse_jsonp = do
    m ← message unauthorized
    send_jsonp out (tree (member (codes "_error") (error_tree unauthorized m) done))

  -- The two queries of the index, by the target of the `scoped_db`: the number of entries, and the
  -- entries.
  unfoldable pub read_forum : Target → Action W (ℕ × Members)
  read_forum target = do
    connect out target
    counted ← query out target count_forum []
    total ← first_number (codes "total_count") counted
    rows ← query out target select_forum []
    items ← forum_items rows
    pure (total, items)

  unfoldable pub show_index : Action W (Unit {0})
  show_index = do
    m ← message err_none
    userid ← sess_get (codes "userid")
    username ← sess_get (codes "username")
    rest ← rest_params
    (total, items) ← read_forum db_etc
    send_jsonp out (index_tree m userid username rest total items)

  unfoldable pub index_jsonp : Action W (Unit {0})
  unfolding signed_in show_index
  index_jsonp = signed_in refuse_jsonp λ userid. show_index

  unfoldable pub show_params : Action W (Unit {0})
  show_params = do
    m ← message err_none
    userid ← sess_get (codes "userid")
    username ← sess_get (codes "username")
    rest ← rest_params
    send_jsonp out (
        tree (
          member (codes "_error") (error_tree err_none m) (
            member (codes "_session") (session_tree userid username)
              (member (codes "_params") (tree (array rest)) done))))

  -- The two functions that send back the request's parameters.
  unfoldable pub params_jsonp : Action W (Unit {0})
  unfolding signed_in show_params
  params_jsonp = signed_in refuse_jsonp λ userid. show_params

  abbrev pub show_jsonp : Action W (Unit {0})
  show_jsonp = params_jsonp

  abbrev pub form_jsonp : Action W (Unit {0})
  form_jsonp = params_jsonp

  -- A new entry.
  unfoldable pub create_entry : ℕ → Action W (Unit {0})
  create_entry userid = do
    key ←
        call out (by_text (codes "db_etc")) (codes "CALL USP_GET_UNIQUE_KEYS('forum', ?)")
          (integer 1 ∷ [])
    seq ← last_key (λ r. r.small (codes "last_key")) key
    title ← get_param (codes "title")
    content ← get_param (codes "content")
    username ← sess_get (codes "username")
    affected_rows ← execute out (by_text (codes "db_etc")) insert_forum (
        integer seq
        ∷ string title
        ∷ string content
        ∷ string []
        ∷ string []
        ∷ integer userid
        ∷ string username
        ∷ [])
    leave_if (affected_rows == 0) (error_page out forum_insert_failed)

  -- An entry that is changed.
  unfoldable pub update_entry : ℕ → ℕ → Action W (Unit {0})
  update_entry seq userid = do
    title ← get_param (codes "title")
    content ← get_param (codes "content")
    username ← get_param (codes "username")
    affected_rows ← execute out (by_text (codes "db_etc")) update_forum (
        string title
        ∷ string content
        ∷ string []
        ∷ string []
        ∷ string username
        ∷ integer seq
        ∷ integer userid
        ∷ [])
    pure tt

  -- What `post` does for a user that is signed in.
  unfoldable pub save_entry : Bytes → Action W (Unit {0})
  unfolding create_entry update_entry
  save_entry userid = do
    seq_text ← get_param (codes "seq")
    title ← get_param (codes "title")
    leave_if (is_empty title) (error_page out title_required)
    content ← get_param (codes "content")
    leave_if (is_empty content) (error_page out content_required)
    connect out (by_text (codes "db_etc"))
    let seq = if is_empty seq_text then 0 else strtoull seq_text
    if seq == 0 then create_entry (strtoull userid) else update_entry seq (strtoull userid)
    redirect (codes "/dir/forum/index")

  unfoldable pub post : Action W (Unit {0})
  unfolding signed_in save_entry
  post = signed_in (redirect (codes "/dir/user/signin")) save_entry
