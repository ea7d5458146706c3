-- ===== src/Config/Init.antt =====
-- `config::init`, `config::get` and `config::err_msg` of src/config.cpp.
use waspp.Base.{
  ℕ, ◌-◌, ◌%◌, ◌^◌, Bool, leb, List, [], ◌∷◌, ◌++◌, ◌==◌, if◌then◌else◌, Bytes, codes, equal,
  Option, none, some,
}
use waspp.Config.{Config, Section}
use waspp.Strtol.{strtol_int, skip_spaces, read_signed}
use waspp.Router.Paths.{with_slash}

-- A node of a property tree: its value, and the values below it. Nothing deeper is read.
pub record Node : Type 0 where
  pub value : Bytes
  pub items : Section

-- The file system, the reader of JSON files (`none`: it throws), two conversions (`none`: it throws),
-- and the order in which an `unordered_map` gives its entries.
pub record Outside : Type 0 where
  pub exists : Bytes → Bool
  pub read_json : Bytes → Option (List (Bytes × Node))
  pub strtod : Bytes → ℕ
  pub lexical_cast : Bytes → Option Bool
  pub order : Section → Section

-- `init` returns true, or false, or throws; or an empty string is indexed.
pub data Result : Type 0 where
  ready : Config → Result
  refused : Config → Result
  threw : Config → Result
  undefined : Config → Result

infixl 5 ◌>>=◌
abbrev pub ◌>>=◌ : Result → (Config → Result) → Result
ready c >>= f = f c
refused c >>= f = refused c
threw c >>= f = threw c
undefined c >>= f = undefined c

-- `strtoull(s, nullptr, 0)`: a minus sign negates, but not where the number is out of range.
unfoldable pub strtoull : Bytes → ℕ
strtoull s =
    let (negative, value) = read_signed (skip_spaces s) in
    if leb (2 ^ 64) value then 2 ^ 64 - 1 else if negative then (2 ^ 64 - value) % 2 ^ 64 else value

module _ {ℓ} {V : Type ℓ} where
  -- `find` of a map.
  unfoldable pub find_entry : Bytes → List (Bytes × V) → Option V
  find_entry k [] = none
  find_entry k ((j, v) ∷ m) = if equal j k then some v else find_entry k m

  -- `insert` of a map, which leaves an entry of that key as it is.
  unfoldable pub insert_entry : Bytes → V → List (Bytes × V) → List (Bytes × V)
  insert_entry k v [] = (k, v) ∷ []
  insert_entry k v ((j, w) ∷ m) = if equal j k then (j, w) ∷ m else (j, w) ∷ insert_entry k v m

-- The inner loop over a section's items, and the outer one.
unfoldable pub section_of : Section → Section → Section
section_of [] c = c
section_of ((k, v) ∷ items) c = section_of items (insert_entry k v c)

unfoldable pub read_tree : List (Bytes × Node) → List (Bytes × Section) → List (Bytes × Section)
unfolding section_of
read_tree [] cfg = cfg
read_tree ((name, node) ∷ tree) cfg =
    read_tree tree (insert_entry name (section_of node.items []) cfg)

-- The loop over the keys of a section: each item is looked up and set.
unfoldable pub set_keys : (Bytes → Bytes → Config → Result) → Section → List Bytes → Config → Result
set_keys set section [] c = ready c
set_keys set section (k ∷ ks) c = elim (find_entry k section) [
  | none ↦ refused c
  | some v ↦ set k v c >>= set_keys set section ks
]

-- The section of that name, without which `init` returns false.
unfoldable pub with_section : Bytes → (Section → Config → Result) → Config → Result
with_section name read c = elim (find_entry name c.cfg) [
  | none ↦ refused c
  | some section ↦ read section c
]

unfoldable pub set_log : Bytes → Bytes → Config → Result
set_log k v c =
    if equal k (codes "level")
    then ready (record c { log_level = v })
    else if equal k (codes "rotation")
    then ready (record c { log_rotation = v })
    else ready c

unfoldable pub set_error : Bytes → Bytes → Config → Result
set_error k v c = if equal k (codes "locale") then ready (record c { locale = v }) else ready c

-- `boost::lexical_cast<bool>`, and what is done with the value.
unfoldable pub cast_bool : Outside → Bytes → Config → (Bool → Config) → Result
cast_bool out v c set = elim (out.lexical_cast v) [ none ↦ threw c | some b ↦ ready (set b) ]

unfoldable pub set_session : Outside → Bytes → Bytes → Config → Result
set_session out k v c =
    if equal k (codes "encrypt_key")
    then ready (record c { encrypt_key = v })
    else if equal k (codes "sess_cookie")
    then ready (record c { sess_cookie = v })
    else if equal k (codes "expiry_sec")
    then ready (record c { expiry_sec = out.strtod v })
    else if equal k (codes "update_sec")
    then ready (record c { update_sec = out.strtod v })
    else if equal k (codes "validate_ip")
    then cast_bool out v c (λ b. record c { validate_ip = b })
    else if equal k (codes "validate_ua")
    then cast_bool out v c (λ b. record c { validate_ua = b })
    else ready c

-- `doc_root_[doc_root_.size() - 1]` is outside an empty string.
unfoldable pub set_doc_root : Bytes → Config → Result
unfolding with_slash
set_doc_root [] c = undefined c
set_doc_root (x ∷ v) c = ready (record c { doc_root = with_slash (x ∷ v) })

unfoldable pub set_server : Outside → Bytes → Bytes → Config → Result
set_server out k v c =
    if equal k (codes "port")
    then ready (record c { port = v })
    else if equal k (codes "doc_root")
    then set_doc_root v c
    else if equal k (codes "num_threads")
    then ready (record c { num_threads = strtoull v })
    else if equal k (codes "compress")
    then cast_bool out v c (λ b. record c { compress = b })
    else if equal k (codes "ssl")
    then cast_bool out v c (λ b. record c { ssl = b })
    else if equal k (codes "ssl_crt")
    then ready (record c { ssl_crt = v })
    else if equal k (codes "ssl_key")
    then ready (record c { ssl_key = v })
    else ready c

abbrev pub session_keys : List Bytes
session_keys =
    codes "encrypt_key"
    ∷ codes "sess_cookie"
    ∷ codes "expiry_sec"
    ∷ codes "update_sec"
    ∷ codes "validate_ip"
    ∷ codes "validate_ua"
    ∷ []

abbrev pub server_keys : List Bytes
server_keys =
    codes "port"
    ∷ codes "doc_root"
    ∷ codes "num_threads"
    ∷ codes "compress"
    ∷ codes "ssl"
    ∷ codes "ssl_crt"
    ∷ codes "ssl_key"
    ∷ []

unfoldable pub read_log : Config → Result
read_log =
    with_section (codes "log") λ s. set_keys set_log s (codes "level" ∷ codes "rotation" ∷ [])

unfoldable pub read_error : Config → Result
read_error = with_section (codes "error") λ s. set_keys set_error s (codes "locale" ∷ [])

unfoldable pub values : Section → List Bytes
values [] = []
values ((k, v) ∷ s) = v ∷ values s

unfoldable pub read_granted : Outside → Config → Result
read_granted out =
    with_section (codes "access_granted")
      λ s c. ready (record c { access_granted = c.access_granted ++ values (out.order s) })

unfoldable pub read_denied : Outside → Config → Result
read_denied out =
    with_section (codes "access_denied")
      λ s c. ready (record c { access_denied = c.access_denied ++ values (out.order s) })

unfoldable pub read_session : Outside → Config → Result
read_session out = with_section (codes "session") λ s. set_keys (set_session out) s session_keys

unfoldable pub read_server : Outside → Config → Result
read_server out = with_section (codes "server") λ s. set_keys (set_server out) s server_keys

-- `err_.find(err_code) != err_.end()`
unfoldable pub find_err : ℕ → List (ℕ × Bytes) → Option Bytes
find_err code [] = none
find_err code ((c, m) ∷ es) = if c == code then some m else find_err code es

-- The loop over the error messages, which refuses a code that stands twice.
unfoldable pub read_errors : List (Bytes × Node) → Config → Result
read_errors [] c = ready c
read_errors ((name, node) ∷ items) c = elim (find_err (strtol_int name) c.err) [
  | some m ↦ refused c
  | none ↦ read_errors items (record c { err = c.err ++ (strtol_int name, node.value) ∷ [] })
]

unfoldable pub read_err_file : Outside → Config → Result
read_err_file out c =
    let err_file = codes "../err/" ++ (c.locale ++ codes ".json") in
    let messages : Result = elim (out.read_json err_file) [
      | none ↦ threw c
      | some items ↦ read_errors items c
    ] in
    if out.exists err_file then messages else refused c

-- What `init` does once it has read the file.
unfoldable pub read_sections : Outside → Config → Result
read_sections out c = do
  c ← read_log c
  c ← read_error c
  c ← read_granted out c
  c ← read_denied out c
  c ← read_session out c
  c ← read_server out c
  read_err_file out c

unfoldable pub init : Outside → Bytes → Bytes → Config → Result
init out addr file c =
    let c' = record c { address = addr } in
    let known : Result = elim (out.read_json file) [
      | none ↦ threw c'
      | some tree ↦ read_sections out (record c' { cfg = read_tree tree c'.cfg })
    ] in
    if out.exists file then known else refused c'

-- `get`; `none`: it throws.
unfoldable pub get : Config → Bytes → Option Section
get c item = find_entry item c.cfg

-- `err_msg`: `operator[]`, which enters an empty message where there is none.
unfoldable pub err_msg : Config → ℕ → Bytes × Config
err_msg c code = elim (find_err code c.err) [
  | some m ↦ (m, c)
  | none ↦ ([], record c { err = c.err ++ (code, []) ∷ [] })
]
