-- ===== src/Routes/Placed/Statements.antt =====
-- The statements of src/route_dir_*.cpp and their placeholders.
use waspp.Base.{ℕ, ◌+◌, ◌≡◌, refl, [], ◌∷◌, ◌==◌, if◌then◌else◌, Bytes, length}
use waspp.Routes.{Statement}
use waspp.Routes.Entries.{AllowsUser}
use waspp.Routes.Pages.{AllowsReads}

-- How many values a statement waits for.
unfoldable pub placeholders : Bytes → ℕ
placeholders [] = 0
placeholders (c ∷ cs) = if c == b'?' then 1 + placeholders cs else placeholders cs

-- Each placeholder is given a value, and no value is left over.
abbrev pub IsPlaced : Statement → Type 0
IsPlaced st = length st.values ≡ placeholders st.sql

pub reads-IsPlaced : AllowsReads IsPlaced
unfolding placeholders
reads-IsPlaced = record { counts = λ t. refl; lists = λ t. refl }

pub user-IsPlaced : (userid : ℕ) → AllowsUser IsPlaced userid
unfolding placeholders
user-IsPlaced userid = record {
  key = refl;
  insert = λ seq title content username. refl;
  update = λ seq title content username. refl;
}
