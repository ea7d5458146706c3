-- ===== src/Mysqlpp/Datetime.antt =====
-- `datetime` of src/mysqlpp.hpp. An `int` and an `unsigned int` are 32-bit patterns; `sscanf` and `mktime`
-- of the C library are arguments.
use waspp.Base.{
  ℕ, ◌+◌, ◌-◌, ◌%◌, ◌^◌, ◌<◌, ◌≡◌, ap, ◌∙◌, ltb, if◌then◌else◌, Bytes, length, Option, none, some,
  arith,
}

-- `std::tm`, as far as the class uses it.
pub record Tm : Type 0 where
  pub tm_year : ℕ
  pub tm_mon : ℕ
  pub tm_mday : ℕ
  pub tm_hour : ℕ
  pub tm_min : ℕ
  pub tm_sec : ℕ
  pub tm_isdst : ℕ

pub record Datetime : Type 0 where
  pub year : ℕ
  pub month : ℕ
  pub day : ℕ
  pub hour : ℕ
  pub minute : ℕ
  pub second : ℕ

-- What `sscanf` has read: nothing that counts, a date, or a date and a time. `mktime` returns -1
-- (`none`), or normalizes its argument.
pub data Scanned : Type 0 where
  other : Scanned
  date : ℕ → ℕ → ℕ → Scanned
  date_time : ℕ → ℕ → ℕ → ℕ → ℕ → ℕ → Scanned

pub record Library : Type 0 where
  pub sscanf : Bytes → Scanned
  pub mktime : Tm → Option Tm

-- A date, an exception, or members of `tm_` that have no value are read.
pub data Made : Type 0 where
  made : Datetime → Made
  threw : Made
  undefined : Made

unfoldable pub set_time : Tm → Datetime
set_time tm = record {
  year = (tm.tm_year + 1900) % 2 ^ 32;
  month = (tm.tm_mon + 1) % 2 ^ 32;
  day = tm.tm_mday;
  hour = tm.tm_hour;
  minute = tm.tm_min;
  second = tm.tm_sec;
}

unfoldable pub c_tm : Datetime → Tm
c_tm d = record {
  tm_year = (d.year + (2 ^ 32 - 1900)) % 2 ^ 32;
  tm_mon = (d.month + (2 ^ 32 - 1)) % 2 ^ 32;
  tm_mday = d.day;
  tm_hour = d.hour;
  tm_min = d.minute;
  tm_sec = d.second;
  tm_isdst = 2 ^ 32 - 1;
}

-- What the constructor does with six numbers that were read.
unfoldable pub normalize : Library → Tm → Made
unfolding set_time
normalize out tm = elim (out.mktime tm) [ none ↦ threw | some tm' ↦ made (set_time tm') ]

-- `datetime(str)`
unfoldable pub datetime : Library → Bytes → Made
unfolding normalize
datetime out str = if ltb 19 (length str) then threw else elim (out.sscanf str) [
  | other ↦ threw
  | date y m d ↦ undefined
  | date_time y m d hour min sec ↦ normalize out (record {
    tm_year = (y + (2 ^ 32 - 1900)) % 2 ^ 32;
    tm_mon = (m + (2 ^ 32 - 1)) % 2 ^ 32;
    tm_mday = d;
    tm_hour = hour;
    tm_min = min;
    tm_sec = sec;
    tm_isdst = 2 ^ 32 - 1;
  })
]

-- `c_tm` gives back the fields that `set_time` was given, where the year and the month are patterns of
-- 32 bits, and leaves it open whether summer time is in use.
c_tm-set_time :
    (tm : Tm)
    → tm.tm_year < 2 ^ 32
    → tm.tm_mon < 2 ^ 32
    → c_tm (set_time tm) ≡ record tm { tm_isdst = 2 ^ 32 - 1 }
unfolding c_tm set_time
c_tm-set_time tm h k =
    let year : ((tm.tm_year + 1900) % 2 ^ 32 + (2 ^ 32 - 1900)) % 2 ^ 32 ≡ tm.tm_year =
      omega arith in
    let mon : ((tm.tm_mon + 1) % 2 ^ 32 + (2 ^ 32 - 1)) % 2 ^ 32 ≡ tm.tm_mon = omega arith in
    ap (λ y. record (c_tm (set_time tm)) { tm_year = y }) year
    ∙ ap (λ m. record tm { tm_mon = m; tm_isdst = 2 ^ 32 - 1 }) mon
