-- ===== src/Logger.antt =====
-- src/logger.cpp: the tasks that a logger posts to its thread, and what the thread does with each.
-- Each task, and each call that posts one, is one step.
pub mod Files
pub mod Journal
pub mod Refines
pub mod Drained
use waspp.Base.{
  ℕ, Bool, true, false, not, ◌&&◌, List, [], ◌∷◌, ◌++◌, ◌==◌, ltb, if◌then◌else◌, Bytes, codes,
  equal, Option, none, some,
}
use waspp.Config.{Config}

-- `log_level_type`, `log_rotation_type`
pub data Level : Type 0 where
  debug info warn error fatal : Level

pub data Rotation : Type 0 where
  every_minute hourly daily : Rotation

-- `std::tm`
pub record Tm : Type 0 where
  pub tm_year : ℕ
  pub tm_mon : ℕ
  pub tm_mday : ℕ
  pub tm_hour : ℕ
  pub tm_min : ℕ
  pub tm_sec : ℕ

-- What is given to `post`.
pub data Task : Type 0 where
  open_file : Bytes → Task
  configure : Level → Rotation → Task
  append : Bytes → Task
  rotate_to : Bytes → Task

-- The text of each file.
abbrev pub Disk : Type 0
Disk = Bytes → Option Bytes

abbrev pub set_file : Bytes → Option Bytes → Disk → Disk
set_file name text disk = λ n. if equal n name then text else disk n

-- `strftime`, whether an output file can be opened, and whether a file that is there can be renamed.
pub record Outside : Type 0 where
  pub strftime : Bytes → Tm → Bytes
  pub opens : Bytes → Bool
  pub renames : Bytes → Bytes → Bool

-- The members, the tasks that wait, and the files. `stream` is the file that `ofstream_` writes to.
pub record Logger : Type 0 where
  pub file : Bytes
  pub file_created : Tm
  pub level : Level
  pub rotation : Rotation
  pub stream : Option Bytes
  pub tasks : List Task
  pub disk : Disk

abbrev pub post : Task → Logger → Logger
post t s = record s { tasks = s.tasks ++ t ∷ [] }

abbrev pub text_of : Option Bytes → Bytes
text_of none = []
text_of (some text) = text

-- `ofstream_.open(file_, app)`, which makes the file where there is none.
unfoldable pub open_stream : Outside → Logger → Logger
open_stream out s =
    if out.opens s.file
    then record s {
      stream = some s.file;
      disk = set_file s.file (some (text_of (s.disk s.file))) s.disk;
    }
    else record s { stream = none }

-- `ofstream_ << message << std::endl`, which a stream that is not open ignores.
unfoldable pub append_line : Bytes → Logger → Logger
append_line m s = elim s.stream [
  | none ↦ s
  | some f ↦ record s { disk = set_file f (some (text_of (s.disk f) ++ (m ++ b'\n' ∷ []))) s.disk }
]

-- The task of `rotate`; `none`: `rename` throws, which ends the program.
unfoldable pub rotate_file : Outside → Tm → Bytes → Logger → Option Logger
unfolding open_stream
rotate_file out now to s = elim (s.disk to) [
  | some text ↦ some s
  | none ↦ elim (s.disk s.file) [
    | none ↦ none
    | some text ↦
        if out.renames s.file to
        then some (
            open_stream out (record s {
              file_created = now;
              stream = none;
              disk = set_file to (some text) (set_file s.file none s.disk);
            }))
        else none
  ]
]

-- One task, with the local time at which it runs.
unfoldable pub run_task : Outside → Tm → Task → Logger → Option Logger
unfolding open_stream append_line rotate_file
run_task out now (open_file f) s =
    some (open_stream out (record s { file = f; file_created = now }))
run_task out now (configure l r) s = some (record s { level = l; rotation = r })
run_task out now (append m) s = some (append_line m s)
run_task out now (rotate_to to) s = rotate_file out now to s

-- `rotate`: whether the file is to be renamed, and the name's end.
unfoldable pub due : Outside → Tm → Logger → Option Bytes
due out tm s = elim s.rotation [
  | every_minute ↦
      if not (tm.tm_min == s.file_created.tm_min)
      then some (out.strftime (codes ".%Y-%m-%d_%H%M") s.file_created)
      else none
  | hourly ↦
      if not (tm.tm_hour == s.file_created.tm_hour)
      then some (out.strftime (codes ".%Y-%m-%d_%H") s.file_created)
      else none
  | daily ↦
      if not (tm.tm_mday == s.file_created.tm_mday)
      then some (out.strftime (codes ".%Y-%m-%d") s.file_created)
      else none
]

unfoldable pub rotate : Outside → Tm → Logger → Logger
rotate out tm s = elim (due out tm s) [
  | none ↦ s
  | some datetime ↦ post (rotate_to (s.file ++ datetime)) s
]

unfoldable pub write : Outside → Tm → Bytes → Logger → Logger
write out tm m s = post (append m) (rotate out tm s)

-- `file`
unfoldable pub set_log_file : Bytes → Logger → Logger
set_log_file f s = post (open_file f) s

unfoldable pub read_level : Bytes → Option Level
read_level s =
    if equal s (codes "debug")
    then some debug
    else if equal s (codes "info")
    then some info
    else if equal s (codes "warn")
    then some warn
    else if equal s (codes "error")
    then some error
    else none

unfoldable pub read_rotation : Bytes → Option Rotation
read_rotation s =
    if equal s (codes "every_minute")
    then some every_minute
    else if equal s (codes "hourly")
    then some hourly
    else if equal s (codes "daily")
    then some daily
    else none

-- `init`
unfoldable pub init_log : Config → Logger → Bool × Logger
init_log cfg s = elim (read_level cfg.log_level) [
  | none ↦ (false, s)
  | some l ↦ elim (read_rotation cfg.log_rotation) [
    | none ↦ (false, s)
    | some r ↦ (true, post (configure l r) s)
  ]
]

abbrev pub level_number : Level → ℕ
level_number debug = 1
level_number info = 2
level_number warn = 3
level_number error = 4
level_number fatal = 5

abbrev pub level_text : Level → Bytes
level_text debug = codes "DEBUG,"
level_text info = codes "INFO,"
level_text warn = codes "WARN,"
level_text error = codes "ERROR,"
level_text fatal = codes "FATAL,"

-- A `log` object from its constructor to its destructor, with the printed and the broken-down time of
-- its making, and what was put into it.
unfoldable pub log : Outside → Level → Bytes → Tm → Bytes → Logger → Logger
log out l ptime tm text s =
    if ltb (level_number l) (level_number s.level)
    then s
    else write out tm (ptime ++ (level_text l ++ text)) s
