-- ===== src/Template/Escape.antt =====
-- internal/uritemplates/uritemplates.go: `pctEncode` and `escape`. The expressions match one rune at
-- a time; no byte of a rune beyond ASCII is in either class, so they are read byte by byte here.
pub mod RoundTrip
use joe_cli_http.Prelude.{
  ℕ, ◌+◌, ◌-◌, ◌/◌, ◌%◌, Bool, ◌&&◌, ◌||◌, List, [], ◌∷◌, ◌++◌, leb, ltb, ◌==◌, if◌then◌else◌,
  Bytes,
}
use joe_cli_http.Prelude.Text.{codes, contains}

abbrev within : ℕ → ℕ → ℕ → Bool
within lo hi c = leb lo c && leb c hi

is_alphanumeric : ℕ → Bool
is_alphanumeric c = within b'A' b'Z' c || within b'a' b'z' c || within b'0' b'9' c

-- The bytes that the expression `unreserved` does not match.
unfoldable pub is_unreserved : ℕ → Bool
unfolding is_alphanumeric
is_unreserved c = is_alphanumeric c || c == b'-' || c == b'.' || c == b'_' || c == b'~'

-- The bytes that the expression `reserved` does not match.
unfoldable pub is_reserved : ℕ → Bool
unfolding is_unreserved contains
is_reserved c = is_unreserved c || contains (codes ":/?#[]@!$&'()*+,;=") c

-- `hex[n]`
unfoldable pub hex_digit : ℕ → ℕ
hex_digit n = if ltb n 10 then b'0' + n else b'A' + n - 10

unfoldable pub pct_encode : Bytes → Bytes
unfolding hex_digit
pct_encode [] = []
pct_encode (b ∷ src) = 0x25 ∷ hex_digit (b / 16) ∷ hex_digit (b % 16) ∷ pct_encode src

abbrev pub is_kept : Bool → ℕ → Bool
is_kept allow_reserved c = if allow_reserved then is_reserved c else is_unreserved c

-- `ReplaceAllFunc` by `pctEncode`, of each byte outside the class.
unfoldable pub escape : Bytes → Bool → Bytes
unfolding pct_encode is_reserved
escape [] allow_reserved = []
escape (c ∷ s) allow_reserved =
    let rest = escape s allow_reserved in
    if is_kept allow_reserved c then c ∷ rest else pct_encode (c ∷ []) ++ rest
