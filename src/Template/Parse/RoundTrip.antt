-- ===== src/Template/Parse/RoundTrip.antt =====
-- `Parse` reads back a template that is written out in the grammar of RFC 6570.
use joe_cli_http.Prelude.{
  ℕ, true, false, ◌&&◌, ◌||◌, List, [], ◌∷◌, ◌++◌, Option, none, some, ◌==◌, Bytes, ok, ◌≡◌, refl,
  arith, ◌≤◌, Option-cases, inl, inr, All, ap, ◌∙◌, append_assoc, append-nil,
}
use joe_cli_http.Prelude.Text.{
  contains, ends_in, drop_last, split, split_absent, split-append, ends_in-concat, drop_last-concat,
  contains-append, contains-append_cons, ends_in_absent,
}
use joe_cli_http.Prelude.Decimal.{
  pos, show_nat, max_int64, parse_int-show_nat, show_nat-contains, is_digit,
}
use joe_cli_http.Template.Types.{Term, Part}
use joe_cli_http.Template.Parse.{
  Need, start, any, two, one, next, matches_from, is_valid_name, is_positive, number_error,
  check_term, parse_prefix, parse_term, term_result, parse_terms, with_terms, parse_expression,
  parse_piece, parse_pieces, parse_split, parse, literal, operator, plain_part, plus_part, dot_part,
  slash_part, semicolon_part, query_part, ampersand_part, hash_part,
}
use joe_cli_http.Template.Parse.Grammar.{
  Modifier, whole, explode, prefix, Operator, plus, dot, slash, semicolon, query, ampersand, hash,
  Variable, Expression, show_modifier, show_variable, show_variables, show_operator, show_body,
  show_rest, show_template, term_of, terms_of, part_of, parts_of, IsVariable, IsText, IsPlain,
  IsUnambiguous, IsShown,
}

-- The bytes that separate the parts of an expression.
abbrev IsMark : ℕ → Type 0
IsMark c = (c == b'{' || c == b'}' || c == b',' || c == b':' || c == b'*') ≡ true

next-mark : (m : Need) (x c : ℕ) {m' : Need} → IsMark c → next m x ≡ some m' → (x == c) ≡ false
unfolding next
next-mark start x c k h = ground arith
next-mark any x c k h = ground arith
next-mark two x c k h = ground arith
next-mark one x c k h = ground arith

matches_from-contains :
    (m : Need) (s : Bytes) (c : ℕ) → IsMark c → matches_from m s ≡ true → contains s c ≡ false
unfolding matches_from contains
matches_from-contains m [] c k h = refl
matches_from-contains m (x ∷ s) c k h = elim (Option-cases (next m x)) [
  | inl e ↦ cc (rw (e, matches_from) at h)
  | inr (m', e) ↦
      rw (next-mark m x c k e) (matches_from-contains m' s c k (rw (e, matches_from) at h))
]

name-contains : (s : Bytes) (c : ℕ) → IsMark c → is_valid_name s ≡ true → contains s c ≡ false
unfolding is_valid_name
name-contains s c k h = matches_from-contains start s c k h

-- The bytes that end an expression, or one of its terms.
abbrev IsEnd : ℕ → Type 0
IsEnd c = (c == b'{' || c == b'}' || c == b',') ≡ true

show_modifier-contains : (m : Modifier) (c : ℕ) → IsEnd c → contains (show_modifier m) c ≡ false
unfolding contains
show_modifier-contains whole c k = refl
show_modifier-contains explode c k = ground arith
show_modifier-contains (prefix n) c k =
    ground (arith, show_nat-contains n c (unfold is_digit in ground arith))

show_variable-contains :
    (v : Variable) (c : ℕ) → IsVariable v → IsEnd c → contains (show_variable v) c ≡ false
show_variable-contains v c h k =
    contains-append v.name _ c (name-contains v.name c (ground arith) h.name_valid)
      (show_modifier-contains v.modifier c k)

check_term_ok :
    (t : Term)
    → is_valid_name t.name ≡ true
    → (t.explode && is_positive t.truncate) ≡ false
    → check_term (t, none) ≡ (t, none)
unfolding check_term
check_term_ok t h k = rw (h, k)

parse_term_explode :
    (s : Bytes)
    → ends_in s b'*' ≡ true
    → parse_term s ≡ check_term (parse_prefix true (drop_last s) (split b':' (drop_last s)))
unfolding parse_term
parse_term_explode s h = rw h

parse_term_whole :
    (s : Bytes)
    → ends_in s b'*' ≡ false
    → parse_term s ≡ check_term (parse_prefix false s (split b':' s))
unfolding parse_term
parse_term_whole s h = rw h

parse_prefix_number :
    (s name : Bytes) (n : ℕ)
    → n ≤ max_int64
    → parse_prefix false s (name ∷ show_nat n ∷ [])
      ≡ (record { name = name; explode = false; truncate = pos n }, none)
unfolding parse_prefix
parse_prefix_number s name n h = rw (parse_int-show_nat n h, number_error)

parse_term-show_variable :
    (name : Bytes) (m : Modifier)
    → IsVariable (record { name = name; modifier = m })
    → parse_term (name ++ show_modifier m) ≡ (term_of (record { name = name; modifier = m }), none)
parse_term-show_variable name whole h =
    let star = ends_in_absent name b'*' (name-contains name b'*' refl h.name_valid) in
    rw
      (
        append-nil,
        parse_term_whole name star,
        split_absent b':' name (name-contains name b':' refl h.name_valid),
      )
      (unfold parse_prefix in check_term_ok _ h.name_valid refl)
parse_term-show_variable name explode h =
    rw
      (
        parse_term_explode (name ++ b'*' ∷ []) (ends_in-concat name b'*'),
        drop_last-concat,
        split_absent b':' name (name-contains name b':' refl h.name_valid),
      )
      (unfold parse_prefix is_positive in check_term_ok _ h.name_valid refl)
parse_term-show_variable name (prefix n) h =
    let digits = show_nat-contains n b'*' (unfold is_digit in refl) in
    let star =
      contains-append name (b':' ∷ show_nat n) b'*' (name-contains name b'*' refl h.name_valid)
        (unfold contains in digits) in
    rw
      (
        parse_term_whole (name ++ b':' ∷ show_nat n)
            (ends_in_absent (name ++ b':' ∷ show_nat n) b'*' star),
        split-append b':' name (show_nat n) (name-contains name b':' refl h.name_valid),
        split_absent b':' (show_nat n) (show_nat-contains n b':' (unfold is_digit in refl)),
        parse_prefix_number (name ++ b':' ∷ show_nat n) name n h.length_fits.1,
      )
      (check_term_ok _ h.name_valid refl)

split-show_variables :
    (v : Variable) (vs : List Variable)
    → IsVariable v
    → All IsVariable vs
    → parse_terms (split b',' (show_variables v vs)) ≡ ok (term_of v ∷ terms_of vs)
unfolding parse_terms term_result
split-show_variables v [] h hs = rw (
  split_absent b',' (show_variable v) (show_variable-contains v b',' h refl),
  parse_term-show_variable v.name v.modifier h,
)
split-show_variables v (w ∷ ws) h (hw, hs) =
    rw
      (
        split-append b',' (show_variable v) (show_variables w ws)
            (show_variable-contains v b',' h refl),
        parse_term-show_variable v.name v.modifier h,
      )
      (rw (split-show_variables w ws hw hs))

show_variables-contains :
    (v : Variable) (vs : List Variable) (c : ℕ)
    → IsVariable v
    → All IsVariable vs
    → IsEnd c
    → (b',' == c) ≡ false
    → contains (show_variables v vs) c ≡ false
show_variables-contains v [] c h hs k e = show_variable-contains v c h k
show_variables-contains v (w ∷ ws) c h (hw, hs) k e =
    contains-append_cons (show_variable v) b',' (show_variables w ws) c
      (show_variable-contains v c h k) e (show_variables-contains w ws c hw hs k e)

show_operator-contains :
    (o : Option Operator) (c : ℕ)
    → (c == b'{' || c == b'}') ≡ true
    → contains (show_operator o) c ≡ false
unfolding contains
show_operator-contains none c k = refl
show_operator-contains (some plus) c k = ground arith
show_operator-contains (some dot) c k = ground arith
show_operator-contains (some slash) c k = ground arith
show_operator-contains (some semicolon) c k = ground arith
show_operator-contains (some query) c k = ground arith
show_operator-contains (some ampersand) c k = ground arith
show_operator-contains (some hash) c k = ground arith

show_body-contains :
    (e : Expression) (c : ℕ)
    → IsShown e
    → (c == b'{' || c == b'}') ≡ true
    → contains (show_body e) c ≡ false
show_body-contains e c h k =
    contains-append (show_operator e.operation) _ c (show_operator-contains e.operation c k) (
      show_variables-contains e.variable e.variables c h.variable_valid h.variables_valid
        (ground arith) (ground arith))

-- Without an operator the first byte is the first of a name, and no operator but the dot is one.
operator_plain :
    (c : ℕ) (s : Bytes) → is_valid_name (c ∷ s) ≡ true → (c == b'.') ≡ false → operator c ≡ none
unfolding is_valid_name operator
operator_plain c s h d = ground arith

with_terms-show_variables :
    (p : Part) (v : Variable) (vs : List Variable)
    → IsVariable v
    → All IsVariable vs
    → with_terms p (show_variables v vs) ≡ ok (record p { terms = term_of v ∷ terms_of vs })
unfolding with_terms
with_terms-show_variables p v vs h hs = rw (split-show_variables v vs h hs)

parse_plain :
    (s : Bytes) (c : ℕ) (t : Bytes)
    → s ≡ c ∷ t
    → operator c ≡ none
    → parse_expression s ≡ with_terms plain_part s
unfolding parse_expression
parse_plain s c t e h = rw (e, parse_expression) (rw (h, parse_expression))

show_variables_cons :
    (name : Bytes) (m : Modifier) (vs : List Variable)
    → is_valid_name name ≡ true
    → IsPlain name
    → let v : Variable = record { name = name; modifier = m } in
      (c : ℕ) × (t : Bytes) × (show_variables v vs ≡ c ∷ t) × (operator c ≡ none)
show_variables_cons [] m vs h p = unfold is_valid_name in cc
show_variables_cons (c ∷ s) m [] h p = (c, s ++ show_modifier m, refl, operator_plain c s h p)
show_variables_cons (c ∷ s) m (w ∷ ws) h p =
    (c, (s ++ show_modifier m) ++ b',' ∷ show_variables w ws, refl, operator_plain c s h p)

parse_expression-plain :
    (v : Variable) (vs : List Variable)
    → IsVariable v
    → IsPlain v.name
    → parse_expression (show_variables v vs) ≡ with_terms plain_part (show_variables v vs)
parse_expression-plain v vs h p =
    let (c, t, e, o) = show_variables_cons v.name v.modifier vs h.name_valid p in
    parse_plain (show_variables v vs) c t e o

parse_expression-show_body :
    (o : Option Operator) (v : Variable) (vs : List Variable)
    → IsUnambiguous o v.name
    → IsVariable v
    → All IsVariable vs
    → parse_expression (show_operator o ++ show_variables v vs)
      ≡ ok (record (part_of o) { terms = term_of v ∷ terms_of vs })
unfolding parse_expression operator
parse_expression-show_body (some plus) v vs u h hs = with_terms-show_variables plus_part v vs h hs
parse_expression-show_body (some dot) v vs u h hs = with_terms-show_variables dot_part v vs h hs
parse_expression-show_body (some slash) v vs u h hs = with_terms-show_variables slash_part v vs h hs
parse_expression-show_body (some semicolon) v vs u h hs =
    with_terms-show_variables semicolon_part v vs h hs
parse_expression-show_body (some query) v vs u h hs = with_terms-show_variables query_part v vs h hs
parse_expression-show_body (some ampersand) v vs u h hs =
    with_terms-show_variables ampersand_part v vs h hs
parse_expression-show_body (some hash) v vs u h hs = with_terms-show_variables hash_part v vs h hs
parse_expression-show_body none v vs u h hs =
    parse_expression-plain v vs h u ∙ with_terms-show_variables plain_part v vs h hs

-- What stands between the opening braces.
abbrev pieces : List Expression → List Bytes
pieces [] = []
pieces (e ∷ es) = (show_body e ++ b'}' ∷ e.rest) ∷ pieces es

split-show_rest :
    (s : Bytes) (es : List Expression)
    → contains s b'{' ≡ false
    → All IsShown es
    → split b'{' (s ++ show_rest es) ≡ s ∷ pieces es
split-show_rest s [] h hs = rw append-nil (split_absent b'{' s h)
split-show_rest s (e ∷ es) h (he, hs) =
    let piece = show_body e ++ b'}' ∷ e.rest in
    let clear =
      contains-append_cons (show_body e) b'}' e.rest b'{' (show_body-contains e b'{' he refl) refl
        he.rest_text.0 in
    split-append b'{' s (show_body e ++ b'}' ∷ (e.rest ++ show_rest es)) h
    ∙ ap (◌∷◌ s) (
        rw (← append_assoc (show_body e) (b'}' ∷ e.rest) (show_rest es))
          (split-show_rest piece es clear hs))

parse_pieces-pieces :
    (es : List Expression) → All IsShown es → parse_pieces (pieces es) ≡ ok (parts_of es)
unfolding parse_pieces parse_piece
parse_pieces-pieces [] h = refl
parse_pieces-pieces (e ∷ es) (he, hs) =
    rw
      (
        split-append b'}' (show_body e) e.rest (show_body-contains e b'}' he refl),
        split_absent b'}' e.rest he.rest_text.1,
        parse_expression-show_body e.operation e.variable e.variables he.unambiguous
            he.variable_valid he.variables_valid,
      )
      (rw (parse_pieces-pieces es hs))

-- `Parse` accepts every template of the grammar, and finds in it exactly the literals, operators,
-- names and modifiers that it was written from. The literals hold no brace, the names are valid,
-- a prefix length is from 1 to the largest `int`, and an expression with no operator does not
-- begin with a dot.
pub parse-show_template :
    (s : Bytes) (es : List Expression)
    → IsText s
    → All IsShown es
    → parse (show_template s es)
      ≡ ok (record { raw = show_template s es; parts = literal s ∷ parts_of es })
unfolding parse parse_split
parse-show_template s es h hs =
    rw (split-show_rest s es h.0 hs) (rw (h.1, parse_pieces-pieces es hs))
