-- ===== src/Logger/Drained.antt =====
-- src/logger.cpp: the thread that runs the tasks, until no task waits.
use waspp.Base.{
  ℕ, zero, suc, ◌≡◌, refl, sym, subst, ap, ◌∙◌, List, [], ◌∷◌, ◌++◌, Bytes, Option, none, some,
  length, append-nil,
}
use waspp.Logger.{Tm, Task, Outside, Logger, run_task}
use waspp.Logger.Journal.{Represents, Works, lines_of}
use waspp.Logger.Refines.{Reach, Refines, Reach-Refines, run_task-Refines, text_of_messages}

-- `io_service_.run()`, for so many tasks, with the local time of each.
unfoldable pub run_all : Outside → (ℕ → Tm) → ℕ → Logger → Option Logger
run_all out clock zero s = some s
run_all out clock (suc n) s = elim s.tasks [
  | [] ↦ some s
  | t ∷ ts ↦ elim (run_task out (clock n) t (record s { tasks = ts })) [
    | none ↦ none
    | some s' ↦ run_all out clock n s'
  ]
]

-- No task is left, and the files hold the journal.
pub record Written (o : Option Logger) (journal : Bytes) : Type 0 where
  pub after : Logger
  pub names : List Bytes
  pub returns : o ≡ some after
  pub idle : after.tasks ≡ []
  pub represents : Represents names after journal

run_all-Written :
    (out : Outside) (clock : ℕ → Tm) (ts : List Task) (s : Logger) (journal : Bytes)
    → Works out
    → s.tasks ≡ ts
    → Refines s journal
    → Written (run_all out clock (length ts) s) journal
unfolding run_all
run_all-Written out clock [] s journal w e v = record {
  after = s;
  names = v.names;
  returns = refl;
  idle = e;
  represents =
      subst (Represents v.names s)
        (sym (append-nil v.held) ∙ ap (λ y. v.held ++ lines_of y) (sym e) ∙ v.to_come) v.represents;
}
run_all-Written out clock (t ∷ ts) s journal w e v =
    let r = run_task-Refines out (clock (length ts)) t ts s journal w e v in
    let rest = run_all-Written out clock ts r.after journal w r.rest r.refines in
    rw (run_all, e, r.returns) rest

-- A logger whose file is open and which has nothing to do is used by threads and run in any order, and
-- then runs the tasks that still wait. No task ends the program, and the files then hold what they held and
-- each message that was written, once and in order, where files can be opened and renamed.
pub run_all-Reach :
    {out : Outside} {s t : Logger} {ms : List Bytes} (clock : ℕ → Tm) (names : List Bytes)
    (journal : Bytes)
    → Works out
    → s.tasks ≡ []
    → Represents names s journal
    → Reach out s ms t
    → Written (run_all out clock (length t.tasks) t) (journal ++ text_of_messages ms)
run_all-Reach {out} {s} {t} {ms} clock names journal w e v r =
    let start : Refines s journal = record {
      names = names;
      held = journal;
      represents = v;
      to_come = ap (λ y. journal ++ lines_of y) e ∙ append-nil journal;
      stay = rw e tt;
    } in
    run_all-Written out clock t.tasks t (journal ++ text_of_messages ms) w refl
      (Reach-Refines journal w r start)
