-- ===== src/Parser/Message/Format.antt =====
-- The text of a message: request line, header lines, body, each piece in front of what follows.
use waspp.Base.{ℕ, ◌+◌, ◌<◌, ◌≡◌, ◌≢◌, true, false, List, [], ◌∷◌, ◌++◌, Bytes, All}
use waspp.Request.{NameValue}
use waspp.Parser.Chars.{is_token, is_ctl}
use waspp.Parser.Clean.{IsToken, IsText}

-- A byte of a path: no control byte, no space, no question mark.
abbrev pub IsPath : ℕ → Type 0
IsPath c = (is_ctl c ≡ false) × (c ≢ b' ') × (c ≢ b'?')

-- A byte of a parameter's value.
abbrev pub IsValue : ℕ → Type 0
IsValue c = (is_token c ≡ true) × (c ≢ b'&')

abbrev pub HasToken : Bytes → Type 0
HasToken s = IsToken s × (s ≢ [])

pub record IsPair (x : NameValue) : Type 0 where
  pub name_token : HasToken x.name
  pub value_bytes : All IsValue x.value

pub record IsLine (x : NameValue) : Type 0 where
  pub name_token : HasToken x.name
  pub value_text : IsText x.value

pub record Message : Type 0 where
  pub method : Bytes
  pub path : Bytes
  pub params : List NameValue
  pub major : ℕ
  pub minor : ℕ
  pub headers : List NameValue

-- `a=1&b=2`
abbrev pub format_pairs : List NameValue → Bytes → Bytes
format_pairs [] rest = rest
format_pairs (x ∷ []) rest = x.name ++ (b'=' ∷ (x.value ++ rest))
format_pairs (x ∷ y ∷ ys) rest = x.name ++ (b'=' ∷ (x.value ++ (b'&' ∷ format_pairs (y ∷ ys) rest)))

-- `?a=1&b=2`, or nothing.
abbrev pub format_query : List NameValue → Bytes → Bytes
format_query [] rest = rest
format_query (x ∷ xs) rest = b'?' ∷ format_pairs (x ∷ xs) rest

abbrev pub format_headers : List NameValue → Bytes → Bytes
format_headers [] rest = rest
format_headers (x ∷ xs) rest =
    x.name ++ (b':' ∷ b' ' ∷ (x.value ++ (b'\r' ∷ b'\n' ∷ format_headers xs rest)))

-- The head of the message, up to the empty line.
abbrev pub format_head : Message → Bytes → Bytes
format_head m rest =
    m.method
    ++ (b' '
        ∷ (m.path
            ++ format_query m.params (
                b' '
                ∷ b'H'
                ∷ b'T'
                ∷ b'T'
                ∷ b'P'
                ∷ b'/'
                ∷ (48 + m.major)
                ∷ b'.'
                ∷ (48 + m.minor)
                ∷ b'\r'
                ∷ b'\n'
                ∷ format_headers m.headers (b'\r' ∷ b'\n' ∷ rest))))

pub record IsMessage (m : Message) : Type 0 where
  pub method_token : HasToken m.method
  pub path_bytes : All IsPath m.path
  pub params_pairs : All IsPair m.params
  pub major_digit : m.major < 10
  pub minor_digit : m.minor < 10
  pub headers_lines : All IsLine m.headers
