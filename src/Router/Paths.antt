-- ===== src/Router/Paths.antt =====
-- The test for a trailing slash, in src/router.cpp and src/config.cpp.
use waspp.Base.{Bool, false, [], ◌∷◌, ◌++◌, ◌==◌, if◌then◌else◌, Bytes}

-- `s[s.size() - 1] == '/'`, for a string that is not empty.
unfoldable pub ends_in_slash : Bytes → Bool
ends_in_slash [] = false
ends_in_slash (c ∷ []) = c == b'/'
ends_in_slash (c ∷ d ∷ cs) = ends_in_slash (d ∷ cs)

unfoldable pub with_slash : Bytes → Bytes
unfolding ends_in_slash
with_slash uri = if ends_in_slash uri then uri else uri ++ b'/' ∷ []
