-- ===== src/Routes/Trees.antt =====
-- The property trees that the functions of src/route_dir_forum.cpp and src/route_dir_performance.cpp
-- put together. Each key of theirs is put once.
use waspp.Base.{List, [], ◌∷◌, Bytes}

mutual
  pub data Json : Type 0 where
    leaf : Bytes → Json
    tree : Members → Json

  -- The children, in their order; those of an array have an empty name.
  pub data Members : Type 0 where
    done : Members
    member : Bytes → Json → Members → Members

-- `params`: each parameter as a child without a name.
unfoldable pub array : List Bytes → Members
array [] = done
array (x ∷ xs) = member [] (leaf x) (array xs)
