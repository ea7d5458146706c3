-- ===== src/Tests/Clients.antt =====
-- Statements, results and handles.
use waspp.Base.{
  ℕ, ◌≡◌, ◌≤◌, ◌<◌, ◌-◌, ◌^◌, ◌↔◌, ◌⊎◌, refl, List, [], ◌∷◌, codes, none, length, arith,
}
use waspp.Mysqlpp.Statement.{statement, int64, string_value, Value, params}
use waspp.Mysqlpp.Seen.{IsSeen, params-IsSeen}
use waspp.Mysqlpp.Column.{Column, got, get_value, set_small}
use waspp.Mysqlpp.Statement.{long_long}
use waspp.Mysqlpp.Values.{stored, get_value-stored_iff}
use waspp.Mysqlpp.Handles.{
  Handles, no_handles, prepare, query, clear, drop_ptr, count, held, IsOwned, no_handles-IsOwned,
  Reach, here, next_step, prepared, queried, Reach-IsOwned, clear-drop_ptr,
}

abbrev bound : List Value
bound = int64 64 ∷ string_value 80 5 ∷ []

params-IsSeen_example :
    IsSeen bound 1 × (params (int64 96 ∷ bound) (statement (length bound)) ≡ none)
params-IsSeen_example = params-IsSeen bound (int64 96) 1

abbrev column : ℕ → Column
column n = record {
  name = codes "userid";
  field_type = long_long;
  buffer = stored n 300;
  length = n;
  is_null = 0;
}

get_value-stored_iff_example :
    (get_value (set_small 32) (got (column 4)) ≡ got 300) ↔ ((300 < 128) ⊎ (2 ^ 32 - 128 ≤ 300))
get_value-stored_iff_example = get_value-stored_iff (column 4) 300 (omega arith) (refl, refl)

abbrev one_made : Handles
one_made = (prepare no_handles).1

run : Reach no_handles one_made
run = next_step here (prepared no_handles)

Reach-IsOwned_example : IsOwned (query one_made).1
Reach-IsOwned_example = Reach-IsOwned (next_step run (queried one_made)) no_handles-IsOwned

one-held : 1 ≤ held 0 one_made
unfolding prepare
one-held = omega arith

clear-drop_ptr_example : count 0 (clear (drop_ptr 0 one_made)).deleted ≡ 2
clear-drop_ptr_example = clear-drop_ptr one_made 0 run one-held
