-- ===== src/Tests/Logs.antt =====
-- A logger that rotates between two messages.
use waspp.Base.{ℕ, ◌≡◌, refl, true, [], ◌∷◌, ◌++◌, codes, equal, none, some, length}
use waspp.Logger.{
  Tm, Outside, Logger, debug, every_minute, rotate_to, append, write, rotate, due, set_file,
}
use waspp.Logger.Journal.{Represents, Works}
use waspp.Logger.Refines.{Reach, here, next, wrote, Refines, Reach-Refines, text_of_messages}
use waspp.Logger.Drained.{run_all, Written, run_all-Reach}

abbrev outside : Outside
outside = record { strftime = λ format tm. codes ".old"; opens = λ f. true; renames = λ f t. true }

outside-Works : Works outside
outside-Works = record { opens = λ f. refl; renames = λ f t. refl }

abbrev at : ℕ → Tm
at m = record { tm_year = 126; tm_mon = 0; tm_mday = 1; tm_hour = 9; tm_min = m; tm_sec = 0 }

abbrev idle : Logger
idle = record {
  file = codes "log";
  file_created = at 1;
  level = debug;
  rotation = every_minute;
  stream = some (codes "log");
  tasks = [];
  disk = set_file (codes "log") (some (codes "0")) (λ n. none);
}

idle-Represents : Represents [] idle (codes "0")
unfolding equal
idle-Represents = record {
  writes = refl;
  exists = λ e. cc;
  archived = tt;
  distinct = tt;
  holds = refl;
}

abbrev busy : Logger
busy = write outside (at 2) (codes "b") (write outside (at 1) (codes "a") idle)

busy-tasks : busy.tasks ≡ append (codes "a") ∷ rotate_to (codes "log.old") ∷ append (codes "b") ∷ []
unfolding write rotate due
busy-tasks = refl

run : Reach outside idle (codes "a" ∷ codes "b" ∷ []) busy
run = next (next here (wrote (at 1) (codes "a"))) (wrote (at 2) (codes "b"))

idle-Refines : Refines idle (codes "0")
idle-Refines = record {
  names = [];
  held = codes "0";
  represents = idle-Represents;
  to_come = refl;
  stay = tt;
}

Reach-Refines_example : Refines busy (codes "0" ++ text_of_messages (codes "a" ∷ codes "b" ∷ []))
Reach-Refines_example = Reach-Refines (codes "0") outside-Works run idle-Refines

run_all-Reach_example :
    Written
      (run_all outside (λ n. at 3) (length busy.tasks) busy)
      (codes "0" ++ text_of_messages (codes "a" ∷ codes "b" ∷ []))
run_all-Reach_example =
    run_all-Reach (λ n. at 3) [] (codes "0") outside-Works refl idle-Represents run
