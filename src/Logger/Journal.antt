-- ===== src/Logger/Journal.antt =====
-- The logger's files as an append-only journal: the rotated ones, and the current one.
use waspp.Base.{
  ◌≡◌, ◌≢◌, refl, sym, ap, ◌∙◌, inl, inr, true, List, [], ◌∷◌, ◌++◌, Bytes, Option, none, some,
  Option-cases, All, All-append, All-map, append_assoc, append-nil, arith,
}
use waspp.Logger.{
  Tm, Task, open_file, configure, append, rotate_to, set_file, Outside, Logger, text_of,
  open_stream, append_line, rotate_file, run_task,
}
use waspp.Logger.Files.{
  gather, Distinct, set_file-same, set_file-other, gather-set_file, gather-append, Distinct-append,
  rotated, rotated-MovedAway,
}

-- The files `archives`, in this order, and the current one hold the journal.
pub record Represents (archives : List Bytes) (s : Logger) (journal : Bytes) : Type 0 where
  pub writes : s.stream ≡ some s.file
  pub exists : s.disk s.file ≢ none
  pub archived : All (λ n. (s.disk n ≢ none) × (n ≢ s.file)) archives
  pub distinct : Distinct archives
  pub holds : gather s.disk archives ++ text_of (s.disk s.file) ≡ journal

-- What a task adds to the journal.
abbrev pub line_of : Task → Bytes
line_of (append m) = m ++ b'\n' ∷ []
line_of (open_file f) = []
line_of (configure l r) = []
line_of (rotate_to to) = []

abbrev pub lines_of : List Task → Bytes
lines_of [] = []
lines_of (t ∷ ts) = line_of t ++ lines_of ts

abbrev pub Stays : Task → Type 0
Stays t = (f : Bytes) → t ≢ open_file f

some-ne-none : {x : Bytes} → some x ≢ none
some-ne-none e = cc

append_line-Represents :
    (archives : List Bytes) (s : Logger) (journal m : Bytes)
    → Represents archives s journal
    → Represents archives (append_line m s) (journal ++ (m ++ b'\n' ∷ []))
unfolding append_line
append_line-Represents archives s journal m v =
    let line = m ++ b'\n' ∷ [] in
    let new : Option Bytes = some (text_of (s.disk s.file) ++ line) in
    let d = set_file s.file new s.disk in
    let here = set_file-same s.file new s.disk in
    let apart = All-map _ (λ n. n ≢ s.file) archives (λ n h. h.1) v.archived in
    rw (append_line, v.writes)
      (record {
        writes = v.writes;
        exists = λ e. some-ne-none (sym here ∙ e);
        archived =
            All-map _ (λ n. (d n ≢ none) × (n ≢ s.file)) archives
              (λ n h. ((λ e. h.0 (sym (set_file-other s.file n new s.disk h.1) ∙ e)), h.1))
              v.archived;
        distinct = v.distinct;
        holds =
            ap (λ y. y ++ text_of (d s.file)) (gather-set_file archives s.file new s.disk apart)
            ∙ ap (λ y. gather s.disk archives ++ text_of y) here
            ∙ sym (append_assoc (gather s.disk archives) (text_of (s.disk s.file)) line)
            ∙ ap (λ y. y ++ line) v.holds;
      })

rotate_file-rotated :
    (out : Outside) (now : Tm) (to text : Bytes) (s : Logger)
    → s.disk to ≡ none
    → s.disk s.file ≡ some text
    → to ≢ s.file
    → out.renames s.file to ≡ true
    → out.opens s.file ≡ true
    → rotate_file out now to s
      ≡ some (record s {
        file_created = now;
        stream = some s.file;
        disk = rotated s.file to text s.disk;
      })
unfolding rotate_file open_stream
rotate_file-rotated out now to text s new old n renames opens =
    let gone : set_file to (some text) (set_file s.file none s.disk) s.file ≡ none =
      set_file-other to s.file (some text) (set_file s.file none s.disk) (λ e. n (sym e))
      ∙ set_file-same s.file none s.disk in
    rw (rotate_file, new, old, renames, open_stream, opens)
      (ap {B = Option Logger}
        (λ (y : Option Bytes). some (record s {
          file_created = now;
          stream = some s.file;
          disk =
              set_file s.file (some (text_of y))
                (set_file to (some text) (set_file s.file none s.disk));
        }))
        gone)

moved-Represents :
    (now : Tm) (to text : Bytes) (archives : List Bytes) (s : Logger) (journal : Bytes)
    → s.disk to ≡ none
    → s.disk s.file ≡ some text
    → to ≢ s.file
    → Represents archives s journal
    → Represents
        (archives ++ to ∷ [])
        (record s {
          file_created = now;
          stream = some s.file;
          disk = rotated s.file to text s.disk;
        })
        journal
moved-Represents now to text archives s journal new old n v =
    let d = rotated s.file to text s.disk in
    let apart = All-map _ (λ k. k ≢ s.file) archives (λ k h. h.1) v.archived in
    let absent = All-map _ (λ k. k ≢ to) archives (λ k h e. h.0 (ap s.disk e ∙ new)) v.archived in
    let r = rotated-MovedAway archives s.file to text s.disk n apart absent in
    let Held : Bytes → Type 0 = λ k. (d k ≢ none) × (k ≢ s.file) in
    record {
      writes = refl;
      exists = λ e. some-ne-none (sym r.fresh ∙ e);
      archived =
          All-append Held archives (to ∷ [])
            (All-map _ Held archives
              (λ k h. ((λ e. h.0 (sym (r.others k h.1 (λ f. h.0 (ap s.disk f ∙ new))) ∙ e)), h.1))
              v.archived)
            (((λ e. some-ne-none (sym r.moved ∙ e)), n), tt);
      distinct = Distinct-append archives to v.distinct absent;
      holds =
          ap (λ y. y ++ text_of (d s.file)) (gather-append archives to d)
          ∙ ap (λ y. (gather d archives ++ text_of (d to)) ++ text_of y) r.fresh
          ∙ append-nil (gather d archives ++ text_of (d to))
          ∙ ap (λ y. gather d archives ++ text_of y) r.moved
          ∙ ap (λ y. y ++ text) r.kept
          ∙ ap (λ y. gather s.disk archives ++ text_of y) (sym old)
          ∙ v.holds;
    }

-- What the environment of the logger's thread must do: files can be opened, and renamed.
pub record Works (out : Outside) : Type 0 where
  pub opens : (f : Bytes) → out.opens f ≡ true
  pub renames : (f t : Bytes) → out.renames f t ≡ true

-- The logger goes on with a journal that has grown by `line`.
pub record Grows (o : Option Logger) (tasks : List Task) (journal : Bytes) : Type 0 where
  pub after : Logger
  pub names : List Bytes
  pub returns : o ≡ some after
  pub same_tasks : after.tasks ≡ tasks
  pub represents : Represents names after journal

rotate_file-Grows :
    (out : Outside) (now : Tm) (to : Bytes) (archives : List Bytes) (s : Logger) (journal : Bytes)
    → Works out
    → Represents archives s journal
    → Grows (rotate_file out now to s) s.tasks journal
unfolding rotate_file
rotate_file-Grows out now to archives s journal w v = elim (Option-cases (s.disk to)) [
  | inr (text, taken) ↦ record {
    after = s;
    names = archives;
    returns = ground arith;
    same_tasks = refl;
    represents = v;
  }
  | inl new ↦ elim (Option-cases (s.disk s.file)) [
    | inl gone ↦ absurd (v.exists gone)
    | inr (text, old) ↦
        let n : to ≢ s.file = λ e. some-ne-none (sym old ∙ ap s.disk (sym e) ∙ new) in
        record {
          after = _;
          names = archives ++ to ∷ [];
          returns =
              rotate_file-rotated out now to text s new old n (w.renames s.file to)
                (w.opens s.file);
          same_tasks = refl;
          represents = moved-Represents now to text archives s journal new old n v;
        }
  ]
]

-- Every task but the opening of another file.
pub run_task-Grows :
    (out : Outside) (now : Tm) (t : Task) (archives : List Bytes) (s : Logger) (journal : Bytes)
    → Works out
    → Stays t
    → Represents archives s journal
    → Grows (run_task out now t s) s.tasks (journal ++ line_of t)
unfolding run_task append_line
run_task-Grows out now (open_file f) archives s journal w k v = absurd (k f refl)
run_task-Grows out now (configure l r) archives s journal w k v = record {
  after = record s { level = l; rotation = r };
  names = archives;
  returns = refl;
  same_tasks = refl;
  represents = rw (append-nil journal) (record {
    writes = v.writes;
    exists = v.exists;
    archived = v.archived;
    distinct = v.distinct;
    holds = v.holds;
  });
}
run_task-Grows out now (append m) archives s journal w k v = record {
  after = append_line m s;
  names = archives;
  returns = refl;
  same_tasks = ground arith;
  represents = append_line-Represents archives s journal m v;
}
run_task-Grows out now (rotate_to to) archives s journal w k v =
    rw (append-nil journal) (rotate_file-Grows out now to archives s journal w v)
