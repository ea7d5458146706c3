-- ===== src/Response/Cookies.antt =====
-- The cookies of a response are a map by name.
use waspp.Base.{
  ◌≡◌, refl, List, [], ◌∷◌, ◌++◌, map, if◌then◌else◌, Bytes, equal, equal_iff, none, some, arith,
}
use waspp.Request.{NameValue, find_value}
use waspp.Response.{Response, set_entry, set_cookie}

pub find_value-set_entry :
    (n m v : Bytes) (xs : List NameValue)
    → find_value m (set_entry n v xs) ≡ (if equal n m then some v else find_value m xs)
unfolding find_value set_entry
find_value-set_entry n m v [] = refl
find_value-set_entry n m v (x ∷ xs) =
    ground
      (arith, equal_iff x.name n, equal_iff x.name m, equal_iff n m, find_value-set_entry n m v xs)

-- After `set_cookie` the cookie of that name has the new value, and any other the value it had.
pub find_value-set_cookie :
    (res : Response) (n m v : Bytes)
    → find_value m (set_cookie res n v).cookies
      ≡ (if equal n m then some v else find_value m res.cookies)
unfolding set_cookie
find_value-set_cookie res n m v = find_value-set_entry n m v res.cookies

abbrev pub names : List NameValue → List Bytes
names = map λ x. x.name

-- An update keeps the names and their order; a name that was not there is appended.
names-set_entry :
    (n v : Bytes) (xs : List NameValue)
    → names (set_entry n v xs)
      ≡ elim (find_value n xs) [ none ↦ names xs ++ n ∷ [] | some w ↦ names xs ]
unfolding set_entry find_value
names-set_entry n v [] = refl
names-set_entry n v (x ∷ xs) = ground (arith, equal_iff x.name n, names-set_entry n v xs)
