-- ===== src/Fields/Cookies.antt =====
-- `parse_cookies` and `parse_cookie`.
use waspp.Base.{
  ℕ, suc, ◌-◌, List, [], ◌∷◌, ◌++◌, ◌==◌, if◌then◌else◌, Bytes, codes, is_empty, drop, substr, find,
  none, some,
}
use waspp.Request.{Request, NameValue, header}
use waspp.Strtol.{is_space}

unfoldable pub leading_spaces : Bytes → ℕ
leading_spaces [] = 0
leading_spaces (c ∷ cs) = let more = suc (leading_spaces cs) in if is_space c then more else 0

-- A piece with no equals sign is no cookie. The first one is no space, so that the spaces end before
-- it.
unfoldable pub parse_cookie : Bytes → List NameValue
parse_cookie s = elim (find s (b'=' ∷ [])) [
  | none ↦ []
  | some pos ↦
      record {
        name = substr s (leading_spaces s) (pos - leading_spaces s);
        value = drop (suc pos) s;
      }
      ∷ []
]

-- The loop: a piece up to each semicolon, and the last one. `piece` holds the bytes since the last
-- semicolon.
unfoldable pub cookies_onto : Bytes → Bytes → List NameValue
cookies_onto piece [] = parse_cookie piece
cookies_onto piece (c ∷ cs) =
    let next = parse_cookie piece ++ cookies_onto [] cs in
    let more = cookies_onto (piece ++ c ∷ []) cs in if c == b';' then next else more

unfoldable pub parse_cookies : Request → Request
unfolding header
parse_cookies req =
    let (value, req') = header req (codes "Cookie") in
    if is_empty value then req' else record req' { cookies = req'.cookies ++ cookies_onto [] value }
