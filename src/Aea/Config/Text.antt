-- ===== src/Aea/Config/Text.antt =====
-- `strings.SplitN(s, sep, -1)` with a separator of one letter, and `strconv.ParseUint(s, 10, 16)`.
use Prim.Native.Char.{Char, code}
use open_acn.Base.{
  String, ℕ, ◌+◌, ◌-◌, ◌*◌, Bool, ◌&&◌, List, [], ◌∷◌, if◌then◌else◌, ltb, leb, ◌==◌,
}

-- A letter in front of the first part.
abbrev pub push : Char → List String → List String
push c [] = String.◌∷◌ c "" ∷ []
push c (word ∷ words) = String.◌∷◌ c word ∷ words

unfoldable pub split : ℕ → String → List String
split sep String.[] = "" ∷ []
split sep (String.◌∷◌ c s) =
    let rest = split sep s in if code c == sep then "" ∷ rest else push c rest

abbrev pub is_digit : Char → Bool
is_digit c = leb b'0' (code c) && leb (code c) b'9'

-- The value that is returned, also beside an error: 0 for a letter that is no digit, and 65535 as
-- soon as the number is larger.
unfoldable pub parse_port_from : ℕ → String → ℕ
parse_port_from n String.[] = n
parse_port_from n (String.◌∷◌ c s) =
    let next = n * 10 + (code c - b'0') in
    let rest = parse_port_from next s in
    if is_digit c then (if ltb 65535 next then 65535 else rest) else 0

unfoldable pub parse_port : String → ℕ
unfolding parse_port_from
parse_port s = parse_port_from 0 s
