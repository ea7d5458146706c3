-- ===== src/Routes/Pages.antt =====
-- What the functions of src/route_dir_forum.cpp leave alone for any set of allowed statements.
use waspp.Base.{List, [], ◌∷◌, is_empty, Bytes, codes}
use waspp.Router.{set_jsonp}
use waspp.Routes.{Action, State, World, Row, Statement, Target, db_etc, unauthorized, err_none}
use waspp.Routes.Ends.{Keeps, ◌>>=-Keeps◌, pure-Keeps, leave_if-Keeps, or_throw-Keeps}
use waspp.Routes.Tidy.{
  Tidy, statement, sess_get-Keeps, message-Keeps, open_session-Keeps, include-Keeps,
  send_jsonp-Keeps, connect-Keeps, query-Keeps,
}
use waspp.Routes.Forum.{
  first_number, forum_items, rest_params, add_jsonp, read_forum, refuse_jsonp, signed_in, show_page,
  show_index, show_params, count_forum, select_forum,
}

module _ {W : Type 0} {P : State W → Type 0} where
  pub first_number-Keeps : (name : Bytes) (rows : List Row) → Keeps P (first_number name rows)
  unfolding first_number
  first_number-Keeps name [] = pure-Keeps 0
  first_number-Keeps name (r ∷ rs) = or_throw-Keeps (r.number name)

  pub forum_items-Keeps : (rows : List Row) → Keeps P (forum_items rows)
  unfolding forum_items
  forum_items-Keeps [] = pure-Keeps _
  forum_items-Keeps (r ∷ rs) = or_throw-Keeps _ >>=-Keeps λ seq. or_throw-Keeps _ >>=-Keeps λ title.
      or_throw-Keeps _ >>=-Keeps λ username.
      or_throw-Keeps _ >>=-Keeps λ updatetime. forum_items-Keeps rs >>=-Keeps λ items. pure-Keeps _

module _ {W : Type 0} {Q : Statement → Type 0} where
  pub rest_params-Keeps : Keeps {W = W} (Tidy Q) rest_params
  unfolding rest_params
  rest_params-Keeps = record { ends = λ s p. p }

  add_jsonp-Keeps : Keeps {W = W} (Tidy Q) add_jsonp
  unfolding add_jsonp set_jsonp
  add_jsonp-Keeps = record { ends = λ s p. record { unframed = p.unframed; allowed = p.allowed } }

-- The two queries of the index are allowed.
pub record AllowsReads (Q : Statement → Type 0) : Type 0 where
  pub counts : (t : Target) → Q (statement t count_forum [])
  pub lists : (t : Target) → Q (statement t select_forum [])

module _ {W : Type 0} (out : World W) {Q : Statement → Type 0} where
  pub read_forum-Keeps : AllowsReads Q → (t : Target) → Keeps (Tidy Q) (read_forum out t)
  unfolding read_forum
  read_forum-Keeps h t = connect-Keeps out t >>=-Keeps λ _.
      query-Keeps out t _ _ (h.counts t) >>=-Keeps λ counted.
      first_number-Keeps (codes "total_count") counted >>=-Keeps λ total.
      query-Keeps out t _ _ (h.lists t) >>=-Keeps λ rows.
      forum_items-Keeps rows >>=-Keeps λ items. pure-Keeps (total, items)

  pub refuse_jsonp-Keeps : Keeps (Tidy Q) (refuse_jsonp out)
  unfolding refuse_jsonp
  refuse_jsonp-Keeps = message-Keeps unauthorized >>=-Keeps λ m. send_jsonp-Keeps out _

  pub signed_in-Keeps :
      (refuse : Action W (Unit {0})) (next : Bytes → Action W (Unit {0}))
      → Keeps (Tidy Q) refuse
      → ((userid : Bytes) → Keeps (Tidy Q) (next userid))
      → Keeps (Tidy Q) (signed_in out refuse next)
  unfolding signed_in
  signed_in-Keeps refuse next h k = open_session-Keeps out >>=-Keeps λ _.
      sess_get-Keeps (codes "userid") >>=-Keeps λ userid.
      leave_if-Keeps (is_empty userid) h >>=-Keeps λ _. k userid

  pub show_page-Keeps : (page : Bytes) → Keeps (Tidy Q) (show_page out page)
  unfolding show_page
  show_page-Keeps page = include-Keeps out (codes "dir_include_header.html") >>=-Keeps λ _.
      include-Keeps out page >>=-Keeps λ _.
      add_jsonp-Keeps >>=-Keeps λ _. include-Keeps out (codes "dir_include_footer.html")

  pub show_index-Keeps : AllowsReads Q → Keeps (Tidy Q) (show_index out)
  unfolding show_index
  show_index-Keeps h = message-Keeps err_none >>=-Keeps λ m.
      sess_get-Keeps (codes "userid") >>=-Keeps λ userid.
      sess_get-Keeps (codes "username") >>=-Keeps λ username. rest_params-Keeps >>=-Keeps λ rest.
      read_forum-Keeps h db_etc >>=-Keeps λ read. send_jsonp-Keeps out _

  pub show_params-Keeps : Keeps (Tidy Q) (show_params out)
  unfolding show_params
  show_params-Keeps = message-Keeps err_none >>=-Keeps λ m.
      sess_get-Keeps (codes "userid") >>=-Keeps λ userid.
      sess_get-Keeps (codes "username") >>=-Keeps λ username.
      rest_params-Keeps >>=-Keeps λ rest. send_jsonp-Keeps out _
