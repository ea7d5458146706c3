-- ===== src/Logger/Refines.antt =====
-- src/logger.cpp: threads that write, and the thread that runs the tasks, in any order.
use mathlib.Core.Option.{some-injective}
use waspp.Base.{
  ◌≡◌, refl, sym, ap, subst, ◌∙◌, inl, inr, List, [], ◌∷◌, ◌++◌, Bytes, some, Option-cases, All,
  All-append, append_assoc, append-nil,
}
use waspp.Logger.{
  Tm, Task, configure, append, rotate_to, Outside, Logger, post, run_task, due, rotate, write,
}
use waspp.Logger.{init_log, read_level, read_rotation}
use waspp.Config.{Config}
use waspp.Logger.Journal.{Represents, Stays, line_of, lines_of, Works, run_task-Grows}

-- A step, with the messages that it writes.
pub data Step (out : Outside) (s : Logger) : List Bytes → Logger → Type 0 where
  wrote : (tm : Tm) (m : Bytes) → Step out s (m ∷ []) (write out tm m s)
  configured : (cfg : Config) → Step out s [] (init_log cfg s).1
  ran :
      (now : Tm) (t : Task) (ts : List Task) (s' : Logger)
      → s.tasks ≡ t ∷ ts
      → run_task out now t (record s { tasks = ts }) ≡ some s'
      → Step out s [] s'

pub data Reach (out : Outside) (s : Logger) : List Bytes → Logger → Type 0 where
  here : Reach out s [] s
  next :
      {ms ns : List Bytes} {t u : Logger}
      → Reach out s ms t
      → Step out t ns u
      → Reach out s (ms ++ ns) u

-- The messages, each on a line.
abbrev pub text_of_messages : List Bytes → Bytes
text_of_messages [] = []
text_of_messages (m ∷ ms) = (m ++ b'\n' ∷ []) ++ text_of_messages ms

text_of_messages-append :
    (ms ns : List Bytes) → text_of_messages (ms ++ ns) ≡ text_of_messages ms ++ text_of_messages ns
text_of_messages-append [] ns = refl
text_of_messages-append (m ∷ ms) ns =
    ap (λ y. (m ++ b'\n' ∷ []) ++ y) (text_of_messages-append ms ns)
    ∙ sym (append_assoc (m ++ b'\n' ∷ []) (text_of_messages ms) (text_of_messages ns))

lines_of-append : (ts us : List Task) → lines_of (ts ++ us) ≡ lines_of ts ++ lines_of us
lines_of-append [] us = refl
lines_of-append (t ∷ ts) us =
    ap (λ y. line_of t ++ y) (lines_of-append ts us)
    ∙ sym (append_assoc (line_of t) (lines_of ts) (lines_of us))

-- The files, and what the waiting tasks will add, are the journal.
pub record Refines (s : Logger) (journal : Bytes) : Type 0 where
  pub names : List Bytes
  pub held : Bytes
  pub represents : Represents names s held
  pub to_come : held ++ lines_of s.tasks ≡ journal
  pub stay : All Stays s.tasks

post-Refines :
    (t : Task) (s : Logger) (journal : Bytes)
    → Stays t
    → Refines s journal
    → Refines (post t s) (journal ++ line_of t)
post-Refines t s journal k v = record {
  names = v.names;
  held = v.held;
  represents = record {
    writes = v.represents.writes;
    exists = v.represents.exists;
    archived = v.represents.archived;
    distinct = v.represents.distinct;
    holds = v.represents.holds;
  };
  to_come =
      ap (λ y. v.held ++ y)
        (lines_of-append s.tasks (t ∷ [])
          ∙ ap (λ y. lines_of s.tasks ++ y) (append-nil (line_of t)))
      ∙ sym (append_assoc v.held (lines_of s.tasks) (line_of t))
      ∙ ap (λ y. y ++ line_of t) v.to_come;
  stay = All-append Stays s.tasks (t ∷ []) v.stay (k, tt);
}

rotate-Refines :
    (out : Outside) (tm : Tm) (s : Logger) (journal : Bytes)
    → Refines s journal
    → Refines (rotate out tm s) journal
unfolding rotate
rotate-Refines out tm s journal v = elim (Option-cases (due out tm s)) [
  | inl early ↦ rw (rotate, early) v
  | inr (datetime, late) ↦
      rw (rotate, late)
        (subst (Refines (post (rotate_to (s.file ++ datetime)) s)) (append-nil journal)
          (post-Refines (rotate_to (s.file ++ datetime)) s journal (λ f e. cc) v))
]

configure-Refines :
    (cfg : Config) (s : Logger) (journal : Bytes)
    → Refines s journal
    → Refines (init_log cfg s).1 journal
unfolding init_log
configure-Refines cfg s journal v = elim (Option-cases (read_level cfg.log_level)) [
  | inl wrong ↦ rw (init_log, wrong) v
  | inr (l, right) ↦ elim (Option-cases (read_rotation cfg.log_rotation)) [
    | inl wrong ↦ rw (init_log, right, wrong) v
    | inr (r, known) ↦
        rw (init_log, right, known)
          (subst (Refines (post (configure l r) s)) (append-nil journal)
            (post-Refines (configure l r) s journal (λ f e. cc) v))
  ]
]

-- A task that is run.
pub record Ran (out : Outside) (now : Tm) (t : Task) (s : Logger) (ts : List Task) (journal : Bytes)
    : Type 0 where
  pub after : Logger
  pub returns : run_task out now t (record s { tasks = ts }) ≡ some after
  pub rest : after.tasks ≡ ts
  pub refines : Refines after journal

pub run_task-Refines :
    (out : Outside) (now : Tm) (t : Task) (ts : List Task) (s : Logger) (journal : Bytes)
    → Works out
    → s.tasks ≡ t ∷ ts
    → Refines s journal
    → Ran out now t s ts journal
run_task-Refines out now t ts s journal w e v =
    let stays : All Stays (t ∷ ts) = subst (All Stays) e v.stay in
    let s1 : Logger = record s { tasks = ts } in
    let r : Represents v.names s1 v.held = record {
      writes = v.represents.writes;
      exists = v.represents.exists;
      archived = v.represents.archived;
      distinct = v.represents.distinct;
      holds = v.represents.holds;
    } in
    let g = run_task-Grows out now t v.names s1 v.held w stays.0 r in
    record {
      after = g.after;
      returns = g.returns;
      rest = g.same_tasks;
      refines = record {
        names = g.names;
        held = v.held ++ line_of t;
        represents = g.represents;
        to_come =
            ap (λ y. (v.held ++ line_of t) ++ lines_of y) g.same_tasks
            ∙ append_assoc v.held (line_of t) (lines_of ts)
            ∙ ap (λ y. v.held ++ lines_of y) (sym e)
            ∙ v.to_come;
        stay = subst (All Stays) (sym g.same_tasks) stays.1;
      };
    }

Step-Refines :
    {out : Outside} {s t : Logger} {ms : List Bytes} (journal : Bytes)
    → Works out
    → Step out s ms t
    → Refines s journal
    → Refines t (journal ++ text_of_messages ms)
unfolding write
Step-Refines {out} {s} journal w (wrote tm m) v = rw (append-nil (m ++ b'\n' ∷ [])) (
    post-Refines (append m) (rotate out tm s) journal (λ f e. cc)
      (rotate-Refines out tm s journal v))
Step-Refines {s} journal w (configured cfg) v =
    rw (append-nil journal) (configure-Refines cfg s journal v)
Step-Refines {out} {s} journal w (ran now t ts s' e h) v =
    let r = run_task-Refines out now t ts s journal w e v in
    rw (append-nil journal)
      (subst (λ x. Refines x journal) (some-injective r.after s' (sym r.returns ∙ h)) r.refines)

-- However threads write messages and set the configuration, and the logger's thread runs tasks in
-- between: the rotated files and the current one, with the lines that wait, hold what they
-- held before and then each message that was written, once and in order.
pub Reach-Refines :
    {out : Outside} {s t : Logger} {ms : List Bytes} (journal : Bytes)
    → Works out
    → Reach out s ms t
    → Refines s journal
    → Refines t (journal ++ text_of_messages ms)
Reach-Refines journal w here v = rw (append-nil journal) v
Reach-Refines {t} journal w (next {ms} {ns} r st) v =
    subst (Refines t)
      (append_assoc journal (text_of_messages ms) (text_of_messages ns)
        ∙ ap (λ y. journal ++ y) (sym (text_of_messages-append ms ns)))
      (Step-Refines (journal ++ text_of_messages ms) w st (Reach-Refines journal w r v))
