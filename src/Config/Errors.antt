-- ===== src/Config/Errors.antt =====
-- The table of messages: what was read is what `err_msg` finds.
use mathlib.Core.Option.{some-injective}
use waspp.Base.{
  ℕ, ◌≡◌, sym, ◌∙◌, inl, inr, Bool-cases, List, [], ◌∷◌, ◌++◌, ◌==◌, Bytes, none, some,
  Option-cases, arith, subst,
}
use waspp.Strtol.{strtol_int}
use waspp.Config.{Config}
use waspp.Config.Init.{Node, ready, find_err, read_errors, Outside, init, err_msg}
use waspp.Config.Messages.{err_file}
use waspp.Config.Accepted.{init-IsConfigured}

find_err-append :
    (es fs : List (ℕ × Bytes)) (code : ℕ) (m : Bytes)
    → find_err code es ≡ some m
    → find_err code (es ++ fs) ≡ some m
unfolding find_err
find_err-append [] fs code m h = absurd cc
find_err-append ((k, w) ∷ es) fs code m h =
    let ih = find_err-append es fs code m in
    elim (Bool-cases (k == code)) [ inl same ↦ ground arith | inr other ↦ ground arith ]

find_err-last :
    (es : List (ℕ × Bytes)) (code : ℕ) (m : Bytes)
    → find_err code es ≡ none
    → find_err code (es ++ (code, m) ∷ []) ≡ some m
unfolding find_err
find_err-last [] code m h = ground arith
find_err-last ((k, w) ∷ es) code m h =
    let ih = find_err-last es code m in
    elim (Bool-cases (k == code)) [ inl same ↦ ground arith | inr other ↦ ground arith ]

-- A message that stands in the table stays.
read_errors-kept :
    (items : List (Bytes × Node)) (c c' : Config) (code : ℕ) (m : Bytes)
    → read_errors items c ≡ ready c'
    → find_err code c.err ≡ some m
    → find_err code c'.err ≡ some m
unfolding read_errors
read_errors-kept [] c c' code m h old = ground arith
read_errors-kept ((name, node) ∷ items) c c' code m h old =
    elim (Option-cases (find_err (strtol_int name) c.err)) [
      | inr (m', twice) ↦ absurd (ground arith)
      | inl new ↦
          let next : Config = record c { err = c.err ++ (strtol_int name, node.value) ∷ [] } in
          read_errors-kept items next c' code m (ground arith)
            (find_err-append c.err ((strtol_int name, node.value) ∷ []) code m old)
    ]

-- Each message that was read is found under its number.
read_errors-found :
    (before after : List (Bytes × Node)) (c c' : Config) (name : Bytes) (node : Node)
    → read_errors (before ++ (name, node) ∷ after) c ≡ ready c'
    → find_err (strtol_int name) c'.err ≡ some node.value
unfolding read_errors
read_errors-found [] after c c' name node h =
    elim (Option-cases (find_err (strtol_int name) c.err)) [
      | inr (m', twice) ↦ absurd (ground arith)
      | inl new ↦
          let next : Config = record c { err = c.err ++ (strtol_int name, node.value) ∷ [] } in
          read_errors-kept after next c' (strtol_int name) node.value (ground arith)
            (find_err-last c.err (strtol_int name) node.value new)
    ]
read_errors-found ((other, node') ∷ before) after c c' name node h =
    elim (Option-cases (find_err (strtol_int other) c.err)) [
      | inr (m', twice) ↦ absurd (ground arith)
      | inl new ↦
          let next : Config = record c { err = c.err ++ (strtol_int other, node'.value) ∷ [] } in
          read_errors-found before after next c' name node (ground arith)
    ]

-- After `init` has returned true, `err_msg` gives, for each entry of the file of messages, its
-- message under the number that its name reads as, and enters nothing.
pub init-err_msg :
    (out : Outside) (addr file : Bytes) (c0 c : Config) (before after : List (Bytes × Node))
    (name : Bytes) (node : Node)
    → init out addr file c0 ≡ ready c
    → out.read_json (err_file c) ≡ some (before ++ (name, node) ∷ after)
    → err_msg c (strtol_int name) ≡ (node.value, c)
unfolding err_msg
init-err_msg out addr file c0 c before after name node h json =
    let done = init-IsConfigured out addr file c0 c h in
    let same : some done.items ≡ some (before ++ (name, node) ∷ after) =
      sym done.messages_read ∙ json in
    let found = read_errors-found before after done.before_messages c name node (
      subst (λ is. read_errors is done.before_messages ≡ ready c)
        (some-injective done.items (before ++ (name, node) ∷ after) same) done.messages_taken) in
    ground arith
