-- ===== src/Template/Parse.antt =====
-- internal/uritemplates/uritemplates.go: `Parse`, `parseExpression`, `parseTerm`, `String`, `Names`.
pub mod Sound
pub mod Grammar
pub mod RoundTrip
use joe_cli_http.Prelude.{
  ℕ, Bool, true, false, not, ◌&&◌, ◌||◌, List, [], ◌∷◌, ◌++◌, Option, none, some, leb, ltb, ◌==◌,
  if◌then◌else◌, Bytes, length, Outcome, ok, err, panics, ◌>>=◌,
}
use joe_cli_http.Prelude.Text.{codes, contains, ends_in, drop_last, split}
use joe_cli_http.Prelude.Decimal.{ℤ, pos, negsuc, NumError, parse_int}
use joe_cli_http.Template.Types.{
  Term, Part, blank, Template, Error, unexpected_brace, malformed_template, multiple_colons,
  explode_and_prefix, bad_number, invalid_name,
}

abbrev within : ℕ → ℕ → ℕ → Bool
within lo hi c = leb lo c && leb c hi

unfoldable pub is_name_byte : ℕ → Bool
is_name_byte c =
    within b'A' b'Z' c || within b'a' b'z' c || within b'0' b'9' c || c == b'_' || c == b'.'

unfoldable pub is_hex : ℕ → Bool
is_hex c = within b'0' b'9' c || within b'A' b'F' c || within b'a' b'f' c

-- What the expression `validname` may see next: any name byte, or one of two hex digits.
pub data Need : Type 0 where
  start any two one : Need

unfoldable pub next : Need → ℕ → Option Need
unfolding is_name_byte is_hex
next two c = if is_hex c then some one else none
next one c = if is_hex c then some any else none
next _ c = if is_name_byte c then some any else if c == 0x25 then some two else none

unfoldable pub matches_from : Need → Bytes → Bool
unfolding next
matches_from any [] = true
matches_from m [] = false
matches_from m (c ∷ s) = elim (next m c) [ none ↦ false | some m' ↦ matches_from m' s ]

-- `validname.MatchString`
unfoldable pub is_valid_name : Bytes → Bool
unfolding matches_from
is_valid_name = matches_from start

unfoldable pub is_positive : ℤ → Bool
is_positive (pos n) = ltb 0 n
is_positive (negsuc n) = false

unfoldable pub number_error : Option NumError → Option Error
number_error none = none
number_error (some e) = some (bad_number e)

-- The `switch` on the pieces of the term between colons.
unfoldable pub parse_prefix : Bool → Bytes → List Bytes → Term × Option Error
unfolding parse_int number_error
parse_prefix explode term (name ∷ []) =
    (record { name = term; explode = explode; truncate = pos 0 }, none)
parse_prefix explode term (name ∷ digits ∷ []) =
    let (parsed, e) = parse_int digits in
    (record { name = name; explode = explode; truncate = parsed }, number_error e)
parse_prefix explode term _ =
    (record { name = []; explode = explode; truncate = pos 0 }, some multiple_colons)

-- The two tests behind the `switch`: each overrides the error that stands.
unfoldable pub check_term : Term × Option Error → Term × Option Error
check_term (t, e) =
    let named = if not (is_valid_name t.name) then some (invalid_name t.name) else e in
    (t, if t.explode && is_positive t.truncate then some explode_and_prefix else named)

unfoldable pub parse_term : Bytes → Term × Option Error
parse_term term =
    let explode = ends_in term b'*' in
    let name = if explode then drop_last term else term in
    check_term (parse_prefix explode name (split b':' name))

-- The result beside an error is dropped by every caller.
unfoldable pub term_result : Term × Option Error → Outcome Error Term
term_result (t, none) = ok t
term_result (t, some e) = err e

unfoldable pub parse_terms : List Bytes → Outcome Error (List Term)
parse_terms [] = ok []
parse_terms (raw ∷ raws) = do t ← term_result (parse_term raw); ts ← parse_terms raws; ok (t ∷ ts)

unfoldable pub with_terms : Part → Bytes → Outcome Error Part
with_terms result expression = do
  ts ← parse_terms (split b',' expression)
  ok (record result { terms = ts })

abbrev pub plus_part : Part
plus_part = record blank { sep = codes ","; allow_reserved = true }

abbrev pub dot_part : Part
dot_part = record blank { first = codes "."; sep = codes "." }

abbrev pub slash_part : Part
slash_part = record blank { first = codes "/"; sep = codes "/" }

abbrev pub semicolon_part : Part
semicolon_part = record blank { first = codes ";"; sep = codes ";"; named = true }

abbrev pub query_part : Part
query_part = record blank { first = codes "?"; sep = codes "&"; named = true; ifemp = codes "=" }

abbrev pub ampersand_part : Part
ampersand_part = record blank {
  first = codes "&";
  sep = codes "&";
  named = true;
  ifemp = codes "=";
}

abbrev pub hash_part : Part
hash_part = record blank { first = codes "#"; sep = codes ","; allow_reserved = true }

abbrev pub plain_part : Part
plain_part = record blank { sep = codes "," }

-- The `switch` on the first byte: what its case sets, and `none` for the default.
unfoldable pub operator : ℕ → Option Part
operator c =
    if c == b'+'
    then some plus_part
    else if c == b'.'
    then some dot_part
    else if c == b'/'
    then some slash_part
    else if c == b';'
    then some semicolon_part
    else if c == b'?'
    then some query_part
    else if c == b'&'
    then some ampersand_part
    else if c == b'#'
    then some hash_part
    else none

-- `expression[0]` panics on the empty text. An operator is cut off; the default keeps the byte.
unfoldable pub parse_expression : Bytes → Outcome Error Part
parse_expression [] = panics
parse_expression (c ∷ rest) = elim (operator c) [
  | some result ↦ with_terms result rest
  | none ↦ with_terms plain_part (c ∷ rest)
]

abbrev pub literal : Bytes → Part
literal s = record blank { raw = s }

-- One turn of the loop after the first: an expression, and the literal behind it.
unfoldable pub parse_piece : List Bytes → Outcome Error (List Part)
parse_piece (expression ∷ rest ∷ []) = do
  p ← parse_expression expression
  ok (p ∷ literal rest ∷ [])
parse_piece _ = err malformed_template

unfoldable pub parse_pieces : List Bytes → Outcome Error (List Part)
parse_pieces [] = ok []
parse_pieces (s ∷ ss) = do ps ← parse_piece (split b'}' s); qs ← parse_pieces ss; ok (ps ++ qs)

-- The loop over the text between opening braces; `split` never gives the empty list.
unfoldable pub parse_split : List Bytes → Outcome Error (List Part)
parse_split [] = ok []
parse_split (s ∷ ss) =
    let parts = (do qs ← parse_pieces ss; ok (literal s ∷ qs)) in
    if contains s b'}' then err unexpected_brace else parts

unfoldable pub parse : Bytes → Outcome Error Template
parse raw = do parts ← parse_split (split b'{' raw); ok (record { raw = raw; parts = parts })

-- `String`
unfoldable pub to_string : Template → Bytes
to_string u = u.raw

term_names : List Term → List Bytes
term_names [] = []
term_names (t ∷ ts) = t.name ∷ term_names ts

unfoldable pub part_names : List Part → List Bytes
unfolding term_names
part_names [] = []
part_names (p ∷ ps) =
    let rest = part_names ps in
    if ltb 0 (length p.raw) || length p.terms == 0 then rest else term_names p.terms ++ rest

-- `Names`
unfoldable pub names : Template → List Bytes
unfolding part_names
names u = part_names u.parts
