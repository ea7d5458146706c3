-- ===== src/Parser/Chars.antt =====
-- The byte classes of src/request_parser.cpp. `char` is signed, so that a byte from 128 on reaches
-- these tests as a negative `int`: `c >= 0 && c <= 127` is `c < 128` on bytes.
use waspp.Base.{ℕ, Bool, not, ◌||◌, ltb, leb, within, ◌==◌}

abbrev pub is_char : ℕ → Bool
is_char c = ltb c 128

abbrev pub is_ctl : ℕ → Bool
is_ctl c = leb c 31 || (c == 127)

abbrev pub is_tspecial : ℕ → Bool
is_tspecial c =
    (c == b'(')
    || (c == b')')
    || (c == b'<')
    || (c == b'>')
    || (c == b'@')
    || (c == b',')
    || (c == b';')
    || (c == b':')
    || (c == b'\\')
    || (c == b'"')
    || (c == b'/')
    || (c == b'[')
    || (c == b']')
    || (c == b'?')
    || (c == b'=')
    || (c == b'{')
    || (c == b'}')
    || (c == b' ')
    || (c == b'\t')

abbrev pub is_digit : ℕ → Bool
is_digit c = within b'0' b'9' c

-- The test of the parser for a byte of a token, `!(!is_char(c) || is_ctl(c) || is_tspecial(c))`.
unfoldable pub is_token : ℕ → Bool
is_token c = not (not (is_char c) || is_ctl c || is_tspecial c)
