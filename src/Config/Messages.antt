-- ===== src/Config/Messages.antt =====
-- The locale, and the messages that it selects.
use waspp.Base.{
  ℕ, ◌≡◌, sym, ap, ◌∙◌, inl, inr, true, List, [], ◌∷◌, ◌++◌, Bytes, codes, equal, some,
  Option-cases, arith, append_assoc, append-nil, Bool-cases,
}
use waspp.Config.{Config}
use waspp.Config.Keys.{
  setting, with_section-ready, set_keys-ready, set_keys-done, setting-found, ready-injective,
}
use waspp.Config.Init.{
  Node, Outside, ready, set_error, read_error, find_err, read_errors, read_err_file,
}
use waspp.Strtol.{strtol_int}

pub record ErrorRead (c c' : Config) : Type 0 where
  pub locale : Bytes
  pub said_locale : setting c (codes "error") (codes "locale") ≡ some locale
  pub all : c' ≡ record c { locale = locale }

pub read_error-ErrorRead : (c c' : Config) → read_error c ≡ ready c' → ErrorRead c c'
unfolding read_error set_error equal
read_error-ErrorRead c c' h =
    let (s, named, r) = with_section-ready (codes "error") _ c c' h in
    let k = set_keys-ready set_error s _ _ c c' r in
    let done = set_keys-done set_error s k.between c' k.others in
    record {
      locale = k.value;
      said_locale = setting-found c _ _ s _ named k.found;
      all = sym done ∙ ready-injective _ k.between k.was_set;
    }

abbrev pub err_file : Config → Bytes
err_file c = codes "../err/" ++ (c.locale ++ codes ".json")

-- The errors' numbers and messages.
abbrev pub messages : List (Bytes × Node) → List (ℕ × Bytes)
messages [] = []
messages ((name, node) ∷ items) = (strtol_int name, node.value) ∷ messages items

read_errors-ready :
    (items : List (Bytes × Node)) (c c' : Config)
    → read_errors items c ≡ ready c'
    → c' ≡ record c { err = c.err ++ messages items }
unfolding read_errors
read_errors-ready [] c c' h =
    ready-injective c c' h ∙ ap (λ e. record c { err = e }) (sym (append-nil c.err))
read_errors-ready ((name, node) ∷ items) c c' h =
    elim (Option-cases (find_err (strtol_int name) c.err)) [
      | inr (m, twice) ↦ absurd (ground arith)
      | inl new ↦
          let e : ℕ × Bytes = (strtol_int name, node.value) in
          let rest =
            read_errors-ready items (record c { err = c.err ++ e ∷ [] }) c' (ground arith) in
          rest ∙ ap (λ e. record c { err = e }) (append_assoc c.err (e ∷ []) (messages items))
    ]

pub record MessagesRead (out : Outside) (c c' : Config) : Type 0 where
  pub items : List (Bytes × Node)
  pub is_there : out.exists (err_file c) ≡ true
  pub was_read : out.read_json (err_file c) ≡ some items
  pub taken : read_errors items c ≡ ready c'
  pub all : c' ≡ record c { err = c.err ++ messages items }

pub read_err_file-MessagesRead :
    (out : Outside) (c c' : Config) → read_err_file out c ≡ ready c' → MessagesRead out c c'
unfolding read_err_file
read_err_file-MessagesRead out c c' h = elim (Bool-cases (out.exists (err_file c))) [
  | inr missing ↦ absurd (ground arith)
  | inl there ↦ elim (Option-cases (out.read_json (err_file c))) [
    | inl wrong ↦ absurd (ground arith)
    | inr (items, was_read) ↦ record {
      items = items;
      is_there = there;
      was_read = was_read;
      taken = ground arith;
      all = read_errors-ready items c c' (ground arith);
    }
  ]
]
