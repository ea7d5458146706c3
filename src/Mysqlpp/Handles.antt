-- ===== src/Mysqlpp/Handles.antt =====
-- The statements and results that src/mysqlpp_connection.cpp makes and deletes. An object is its number;
-- `deleted` are the objects that went to `delete`, each as often as it did.
use waspp.Base.{ℕ, suc, ◌+◌, ◌≤◌, ◌≡◌, List, [], ◌∷◌, ◌++◌, ◌==◌, ltb, if◌then◌else◌, arith}

pub record Handles : Type 0 where
  pub next : ℕ
  pub statements : List ℕ
  pub results : List ℕ
  pub deleted : List ℕ

abbrev pub no_handles : Handles
no_handles = record { next = 0; statements = []; results = []; deleted = [] }

-- `prepare`, `prepare_like`: the statement, and what is held then. A constructor that throws leaves
-- all as it is.
unfoldable pub prepare : Handles → ℕ × Handles
prepare h = (h.next, record h { next = suc h.next; statements = h.statements ++ h.next ∷ [] })

-- `__query`
unfoldable pub query : Handles → ℕ × Handles
query h = (h.next, record h { next = suc h.next; results = h.results ++ h.next ∷ [] })

-- `clear`
unfoldable pub clear : Handles → Handles
clear h = record h {
  statements = [];
  results = [];
  deleted = h.deleted ++ (h.results ++ h.statements);
}

-- The destructor of a `stmt_ptr` or an `rs_ptr`, both `std::unique_ptr`.
unfoldable pub drop_ptr : ℕ → Handles → Handles
drop_ptr i h = record h { deleted = h.deleted ++ i ∷ [] }

abbrev pub count : ℕ → List ℕ → ℕ
count i [] = 0
count i (x ∷ xs) = (if i == x then 1 else 0) + count i xs

count-append : (i : ℕ) (xs ys : List ℕ) → count i (xs ++ ys) ≡ count i xs + count i ys
count-append i [] ys = omega arith
count-append i (x ∷ xs) ys = omega (arith, count-append i xs ys)

abbrev pub held : ℕ → Handles → ℕ
held i h = count i h.statements + count i h.results

-- Each object that was made is held or deleted, once, and no other is.
abbrev pub IsOwned : Handles → Type 0
IsOwned h = (i : ℕ) → held i h + count i h.deleted ≡ (if ltb i h.next then 1 else 0)

-- What the connection does of its own.
pub data Step : Handles → Handles → Type 0 where
  prepared : (h : Handles) → Step h (prepare h).1
  queried : (h : Handles) → Step h (query h).1
  cleared : (h : Handles) → Step h (clear h)

pub data Reach (h : Handles) : Handles → Type 0 where
  here : Reach h h
  next_step : {g k : Handles} → Reach h g → Step g k → Reach h k

Step-IsOwned : {h g : Handles} → Step h g → IsOwned h → IsOwned g
unfolding prepare query clear
Step-IsOwned (prepared h) v j =
    let e = v j in let f = count-append j h.statements (h.next ∷ []) in ground arith
Step-IsOwned (queried h) v j =
    let e = v j in let f = count-append j h.results (h.next ∷ []) in ground arith
Step-IsOwned (cleared h) v j = omega (
  arith,
  v j,
  count-append j h.deleted (h.results ++ h.statements),
  count-append j h.results h.statements,
)

-- Whatever a connection prepares, queries and clears: each object that was made is held or was
-- deleted, exactly once, and no other is.
pub Reach-IsOwned : {h g : Handles} → Reach h g → IsOwned h → IsOwned g
Reach-IsOwned here v = v
Reach-IsOwned (next_step r s) v = Step-IsOwned s (Reach-IsOwned r v)

pub no_handles-IsOwned : IsOwned no_handles
no_handles-IsOwned i = ground arith

once_at_most : (i n : ℕ) → (if ltb i n then 1 else 0) ≤ 1
once_at_most i n = ground arith

count_self : (i : ℕ) → count i (i ∷ []) ≡ 1
count_self i = ground arith

-- From a fresh connection, whatever it has prepared, queried and cleared: an object that it holds and
-- that a smart pointer deletes is deleted a second time by the next `clear`.
pub clear-drop_ptr :
    (h : Handles) (i : ℕ)
    → Reach no_handles h
    → 1 ≤ held i h
    → count i (clear (drop_ptr i h)).deleted ≡ 2
unfolding clear drop_ptr
clear-drop_ptr h i r k =
    let own = Reach-IsOwned r no_handles-IsOwned i in
    omega (
      arith,
      own,
      once_at_most i h.next,
      count-append i (h.deleted ++ i ∷ []) (h.results ++ h.statements),
      count-append i h.deleted (i ∷ []),
      count-append i h.results h.statements,
      count_self i,
    )
