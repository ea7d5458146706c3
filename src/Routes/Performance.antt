-- ===== src/Routes/Performance.antt =====
-- src/route_dir_performance.cpp, which reads numbers as `int64_t`: the same below 2 ^ 63.
use waspp.Base.{codes}
use waspp.Routes.{
  Action, World, ◌>>=◌, ◌>>◌, message, sess_get, err_none, by_text, open_session, sess_put,
  send_jsonp,
}
use waspp.Routes.Forum.{rest_params, read_forum, index_tree}

-- Any client is given a session of the user `test`.
unfoldable pub test : {W : Type 0} → World W → Action W (Unit {0})
test out = do
  open_session out
  sess_put out (codes "userid") (codes "test")
  m ← message err_none
  userid ← sess_get (codes "userid")
  username ← sess_get (codes "username")
  rest ← rest_params
  (total, items) ← read_forum out (by_text (codes "db_etc"))
  send_jsonp out (index_tree m userid username rest total items)
