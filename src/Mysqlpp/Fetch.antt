-- ===== src/Mysqlpp/Fetch.antt =====
-- src/mysqlpp_result.cpp: the life of a result, its metadata and its rows. The client has stored the rows
-- of a result, and `mysql_stmt_fetch` goes through them.
use waspp.Base.{ℕ, suc, Bool, true, false, List, [], ◌∷◌, Option, none, some, if◌then◌else◌}
use waspp.Mysqlpp.Column.{Field, ResultSet, bind}

-- What `mysql_stmt_fetch` returns for a row: 0, 1 or `MYSQL_DATA_TRUNCATED`.
pub data Fetched : Type 0 where
  fetched failed truncated : Fetched

-- The client: `mysql_stmt_result_metadata` (false: a null pointer), the fields, and whether
-- `mysql_stmt_bind_result` and `mysql_stmt_store_result` succeed; `mysql_stmt_next_result` (`none`: an
-- error), with the rows that are stored then.
pub record Client (W : Type 0) : Type 0 where
  pub result_metadata : W → Bool × W
  pub fields : W → List Field
  pub bind_result : W → Bool × W
  pub store_result : W → Bool × W
  pub rows : W → List Fetched
  pub next_result : W → Option (List Fetched × W)

-- A result: the metadata that it holds, those that were made and those that were freed.
pub record Result (W : Type 0) : Type 0 where
  pub client : W
  pub set : ResultSet
  pub rows : List Fetched
  pub metadata : Option ℕ
  pub made : ℕ
  pub freed : List ℕ

-- A value, or an exception.
pub data Done (W A : Type 0) : Type 0 where
  done : A → Result W → Done W A
  threw : Result W → Done W A

-- The loop of `fetch_proc_result`.
unfoldable pub skip_rows : List Fetched → List Fetched
skip_rows [] = []
skip_rows (failed ∷ rows) = rows
skip_rows (fetched ∷ rows) = skip_rows rows
skip_rows (truncated ∷ rows) = skip_rows rows

module _ {W : Type 0} where
  -- `mysql_free_result(metadata)`, which does nothing with a null pointer. The pointer keeps its value
  -- in the source, where it is assigned or destroyed next.
  unfoldable pub free_result : Result W → Result W
  free_result r = elim r.metadata [
    | none ↦ r
    | some m ↦ record r { metadata = none; freed = m ∷ r.freed }
  ]

  unfoldable pub fetch_stmt_result : Result W → Done W Bool
  fetch_stmt_result r = elim r.rows [
    | [] ↦ done false r
    | row ∷ rows ↦ done true (record r { rows = rows })
  ]

module _ {W : Type 0} (out : Client W) where
  -- `metadata = mysql_stmt_result_metadata(stmt)`
  unfoldable pub take_metadata : Result W → Result W
  take_metadata r =
      let (found, client) = out.result_metadata r.client in
      if found
      then record r { client = client; metadata = some r.made; made = suc r.made }
      else record r { client = client; metadata = none }

  -- `bind`, with the exception where the client refuses the binds.
  unfoldable pub bind_fields : Result W → Done W Bool
  bind_fields r =
      let (bound, set) = bind (out.fields r.client) r.set in
      let (accepted, client) = out.bind_result r.client in
      if bound
      then (if accepted
          then done true (record r { set = set; client = client })
          else threw (record r { set = set; client = client }))
      else done false (record r { set = set })

  -- What the constructor does with the metadata; its `catch` frees them.
  unfoldable pub store : Done W Bool → Done W (Unit {0})
  unfolding free_result
  store (threw r) = threw (free_result r)
  store (done bound r) =
      let (stored, client) = out.store_result r.client in
      if stored
      then done tt (record r { client = client; rows = out.rows client })
      else threw (free_result (record r { client = client }))

  unfoldable pub result : Result W → Done W (Unit {0})
  unfolding take_metadata bind_fields store
  result r = elim (take_metadata r).metadata [
    | none ↦ threw (take_metadata r)
    | some m ↦ store (bind_fields (take_metadata r))
  ]

  -- What follows `bind` in `fetch_proc_result`.
  unfoldable pub next_rows : Done W Bool → Done W Bool
  unfolding skip_rows
  next_rows (threw r) = threw r
  next_rows (done false r) = done false r
  next_rows (done true r) = elim (out.next_result r.client) [
    | none ↦ threw (record r { rows = skip_rows r.rows })
    | some (rows, client) ↦ done true (record r { rows = rows; client = client })
  ]

  unfoldable pub fetch_proc_result : Result W → Done W Bool
  unfolding free_result take_metadata bind_fields next_rows
  fetch_proc_result r = elim (take_metadata (free_result r)).metadata [
    | none ↦ threw (take_metadata (free_result r))
    | some m ↦ next_rows (bind_fields (take_metadata (free_result r)))
  ]

  unfoldable pub fetch : Bool → Result W → Done W Bool
  unfolding fetch_stmt_result fetch_proc_result
  fetch is_proc r = if is_proc then fetch_proc_result r else fetch_stmt_result r

  -- The calls of `fetch` up to one that throws, and the destructor.
  unfoldable pub use_result : List Bool → Result W → Result W
  unfolding fetch free_result
  use_result [] r = free_result r
  use_result (is_proc ∷ more) r = elim (fetch is_proc r) [
    | done found r' ↦ use_result more r'
    | threw r' ↦ free_result r'
  ]

  -- The whole life of a result.
  unfoldable pub live : List Bool → Result W → Result W
  unfolding result use_result
  live fetches r = elim (result r) [ done x r' ↦ use_result fetches r' | threw r' ↦ r' ]
