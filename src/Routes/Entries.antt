-- ===== src/Routes/Entries.antt =====
-- How an entry of the forum is saved, in `post` of src/route_dir_forum.cpp.
use waspp.Base.{
  ℕ, ◌==◌, if◌then◌else◌, is_empty, [], ◌∷◌, Bytes, codes, Bool, true, false, Option, none, some,
}
use waspp.Config.Init.{strtoull}
use waspp.Routes.{
  World, Row, State, Statement, by_text, integer, string, forum_insert_failed, title_required,
  content_required,
}
use waspp.Routes.Ends.{Keeps, ◌>>=-Keeps◌, pure-Keeps, leave_if-Keeps, or_throw-Keeps}
use waspp.Routes.Tidy.{
  Tidy, statement, get_param-Keeps, sess_get-Keeps, redirect-Keeps, error_page-Keeps, connect-Keeps,
  call-Keeps, execute-Keeps,
}
use waspp.Routes.Forum.{
  last_key, create_entry, update_entry, save_entry, insert_forum, update_forum,
}

pub last_key-Keeps :
    {W : Type 0} {P : State W → Type 0} (read : Row → Option ℕ) (key : Option Row)
    → Keeps P (last_key read key)
unfolding last_key
last_key-Keeps read none = pure-Keeps 0
last_key-Keeps read (some r) = or_throw-Keeps (read r)

-- The three statements, for a user's number.
abbrev pub key_statement : Statement
key_statement =
    statement (by_text (codes "db_etc")) (codes "CALL USP_GET_UNIQUE_KEYS('forum', ?)")
      (integer 1 ∷ [])

abbrev pub insert_statement : ℕ → ℕ → Bytes → Bytes → Bytes → Statement
insert_statement userid seq title content username =
    statement (by_text (codes "db_etc")) insert_forum (
      integer seq
      ∷ string title
      ∷ string content
      ∷ string []
      ∷ string []
      ∷ integer userid
      ∷ string username
      ∷ [])

abbrev pub update_statement : ℕ → ℕ → Bytes → Bytes → Bytes → Statement
update_statement userid seq title content username =
    statement (by_text (codes "db_etc")) update_forum (
      string title
      ∷ string content
      ∷ string []
      ∷ string []
      ∷ string username
      ∷ integer seq
      ∷ integer userid
      ∷ [])

-- The statements of `post` for one user are allowed.
pub record AllowsUser (Q : Statement → Type 0) (userid : ℕ) : Type 0 where
  pub key : Q key_statement
  pub insert :
      (seq : ℕ) (title content username : Bytes)
      → Q (insert_statement userid seq title content username)
  pub update :
      (seq : ℕ) (title content username : Bytes)
      → Q (update_statement userid seq title content username)

module _ {W : Type 0} (out : World W) (Q : Statement → Type 0) (userid : ℕ)
    (h : AllowsUser Q userid) where
  create_entry-Keeps : Keeps (Tidy Q) (create_entry out userid)
  unfolding create_entry
  create_entry-Keeps = call-Keeps out _ _ _ h.key >>=-Keeps λ key.
      last_key-Keeps _ key >>=-Keeps λ seq. get_param-Keeps (codes "title") >>=-Keeps λ title.
      get_param-Keeps (codes "content") >>=-Keeps λ content.
      sess_get-Keeps (codes "username") >>=-Keeps λ username.
      execute-Keeps out _ _ _ (h.insert seq title content username) >>=-Keeps λ affected_rows.
      leave_if-Keeps (affected_rows == 0) (error_page-Keeps out forum_insert_failed)

  update_entry-Keeps : (seq : ℕ) → Keeps (Tidy Q) (update_entry out seq userid)
  unfolding update_entry
  update_entry-Keeps seq = get_param-Keeps (codes "title") >>=-Keeps λ title.
      get_param-Keeps (codes "content") >>=-Keeps λ content.
      get_param-Keeps (codes "username") >>=-Keeps λ username.
      execute-Keeps out _ _ _ (h.update seq title content username) >>=-Keeps λ affected_rows.
      pure-Keeps tt

  save_at-Keeps :
      (c : Bool) (seq : ℕ)
      → Keeps (Tidy Q) (if c then create_entry out userid else update_entry out seq userid)
  save_at-Keeps true seq = create_entry-Keeps
  save_at-Keeps false seq = update_entry-Keeps seq

module _ {W : Type 0} (out : World W) (Q : Statement → Type 0) (userid : Bytes) where
  pub save_entry-Keeps : AllowsUser Q (strtoull userid) → Keeps (Tidy Q) (save_entry out userid)
  unfolding save_entry
  save_entry-Keeps h = get_param-Keeps (codes "seq") >>=-Keeps λ seq_text.
      get_param-Keeps (codes "title") >>=-Keeps λ title.
      leave_if-Keeps (is_empty title) (error_page-Keeps out title_required) >>=-Keeps λ _.
      get_param-Keeps (codes "content") >>=-Keeps λ content.
      leave_if-Keeps (is_empty content) (error_page-Keeps out content_required) >>=-Keeps λ _.
      connect-Keeps out (by_text (codes "db_etc")) >>=-Keeps λ _.
      save_at-Keeps out Q (strtoull userid) h _ _ >>=-Keeps λ _.
      redirect-Keeps (codes "/dir/forum/index")
