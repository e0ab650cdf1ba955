-- ===== src/Template/Parse/Sound.antt =====
-- What a parsed template is made of.
use joe_cli_http.Prelude.{
  ℕ, true, false, ◌&&◌, List, [], ◌∷◌, ◌++◌, Option, some, if◌then◌else◌, Bytes, ok, >>=-eq-ok, ◌≡◌,
  refl, arith, Bool-cases, inl, inr, All, ap, ◌∙◌, ok-injective, subst, Option-cases, ◌≢◌,
}
use joe_cli_http.Prelude.Text.{contains, ends_in, drop_last, split, split_cons}
use joe_cli_http.Template.Types.{Term, Part, Template, Error}
use joe_cli_http.Template.Parse.{
  is_valid_name, is_positive, check_term, parse_prefix, operator, plain_part, parse_term,
  term_result, parse_terms, with_terms, parse_expression, parse_piece, parse_pieces, parse_split,
  parse, literal, to_string,
}

-- The name fits the grammar, and no term has both modifiers.
pub record IsValidTerm (t : Term) : Type 0 where
  pub valid_name : is_valid_name t.name ≡ true
  pub one_modifier : (t.explode && is_positive t.truncate) ≡ false

-- An expression: no text of its own, and at least one term, all of them valid.
pub record IsExpression (p : Part) : Type 0 where
  pub no_raw : p.raw ≡ []
  pub valid_terms : All IsValidTerm p.terms
  pub some_term : p.terms ≢ []

abbrev pub IsLiteral : Part → Type 0
IsLiteral p = p ≡ literal p.raw

-- Expressions, each with a literal behind it.
abbrev pub IsTail : List Part → Type 0
IsTail [] = Unit
IsTail (p ∷ []) = ⊥
IsTail (p ∷ q ∷ ps) = IsExpression p × IsLiteral q × IsTail ps

-- A literal, and then expressions, each with a literal behind it.
abbrev pub IsAlternating : List Part → Type 0
IsAlternating [] = ⊥
IsAlternating (p ∷ ps) = IsLiteral p × IsTail ps

check_term-IsValidTerm :
    (t : Term) (e : Option Error) {u : Term}
    → term_result (check_term (t, e)) ≡ ok u
    → IsValidTerm u
unfolding check_term term_result
check_term-IsValidTerm t e h = ground arith

parse_term-IsValidTerm : (s : Bytes) {u : Term} → term_result (parse_term s) ≡ ok u → IsValidTerm u
unfolding parse_term
parse_term-IsValidTerm s =
    let name = if ends_in s b'*' then drop_last s else s in
    let (t, e) = parse_prefix (ends_in s b'*') name (split b':' name) in check_term-IsValidTerm t e

parse_terms-IsValidTerm :
    (ss : List Bytes) {ts : List Term} → parse_terms ss ≡ ok ts → All IsValidTerm ts
unfolding parse_terms
parse_terms-IsValidTerm [] h = rw (← ok-injective h) tt
parse_terms-IsValidTerm (s ∷ ss) h =
    let (t, ht, h') = >>=-eq-ok (term_result (parse_term s)) _ h in
    let (ts, hts, e) = >>=-eq-ok (parse_terms ss) _ h' in
    rw (← ok-injective e) (parse_term-IsValidTerm s ht, parse_terms-IsValidTerm ss hts)

parse_terms-ne-nil : (s : Bytes) (ss : List Bytes) → parse_terms (s ∷ ss) ≢ ok []
unfolding parse_terms
parse_terms-ne-nil s ss h =
    let (t, ht, h') = >>=-eq-ok (term_result (parse_term s)) _ h in
    let (ts, hts, e) = >>=-eq-ok (parse_terms ss) _ h' in cc

with_terms-IsExpression :
    (p : Part) (s : Bytes) {q : Part} → p.raw ≡ [] → with_terms p s ≡ ok q → IsExpression q
unfolding with_terms
with_terms-IsExpression p s r h =
    let (ts, hts, e) = >>=-eq-ok (parse_terms (split b',' s)) _ h in
    let (w, ws, c) = split_cons b',' s in
    rw (← ok-injective e) (record {
      no_raw = r;
      valid_terms = parse_terms-IsValidTerm (split b',' s) hts;
      some_term =
          λ n. parse_terms-ne-nil w ws (subst (λ l. parse_terms l ≡ ok []) c (hts ∙ ap ok n));
    })

operator-no_raw : (c : ℕ) {p : Part} → operator c ≡ some p → p.raw ≡ []
unfolding operator
operator-no_raw c h = ground arith

parse_expression-IsExpression : (s : Bytes) {q : Part} → parse_expression s ≡ ok q → IsExpression q
unfolding parse_expression
parse_expression-IsExpression [] h = cc
parse_expression-IsExpression (c ∷ s) h = elim (Option-cases (operator c)) [
  | inl e ↦ with_terms-IsExpression plain_part (c ∷ s) refl (rw (e, parse_expression) at h)
  | inr (p, e) ↦ with_terms-IsExpression p s (operator-no_raw c e) (rw (e, parse_expression) at h)
]

abbrev IsPair : List Part → Type 0
IsPair (p ∷ q ∷ []) = IsExpression p × IsLiteral q
IsPair _ = ⊥

parse_piece-IsPair : (ws : List Bytes) {ps : List Part} → parse_piece ws ≡ ok ps → IsPair ps
unfolding parse_piece
parse_piece-IsPair (s ∷ rest ∷ []) h =
    let (p, hp, e) = >>=-eq-ok (parse_expression s) _ h in
    rw (← ok-injective e) (parse_expression-IsExpression s hp, refl)
parse_piece-IsPair [] h = cc
parse_piece-IsPair (s ∷ []) h = cc
parse_piece-IsPair (s ∷ r ∷ t ∷ ws) h = cc

IsTail-append : (ps qs : List Part) → IsPair ps → IsTail qs → IsTail (ps ++ qs)
IsTail-append (p ∷ q ∷ []) qs h t = (h.0, h.1, t)
IsTail-append [] qs h t = absurd h
IsTail-append (p ∷ []) qs h t = absurd h
IsTail-append (p ∷ q ∷ r ∷ ps) qs h t = absurd h

parse_pieces-IsTail : (ss : List Bytes) {ps : List Part} → parse_pieces ss ≡ ok ps → IsTail ps
unfolding parse_pieces
parse_pieces-IsTail [] h = rw (← ok-injective h) tt
parse_pieces-IsTail (s ∷ ss) h =
    let (ps, hp, h') = >>=-eq-ok (parse_piece (split b'}' s)) _ h in
    let (qs, hq, e) = >>=-eq-ok (parse_pieces ss) _ h' in
    rw (← ok-injective e)
      (IsTail-append ps qs (parse_piece-IsPair (split b'}' s) hp) (parse_pieces-IsTail ss hq))

parse_split-IsAlternating :
    (s : Bytes) (ss : List Bytes) {ps : List Part} → parse_split (s ∷ ss) ≡ ok ps → IsAlternating ps
unfolding parse_split
parse_split-IsAlternating s ss h = elim (Bool-cases (contains s b'}')) [
  | inl e ↦ cc (rw (e, parse_split) at h)
  | inr e ↦
      let (qs, hq, e) = >>=-eq-ok (parse_pieces ss) _ (rw (e, parse_split) at h) in
      rw (← ok-injective e) (refl, parse_pieces-IsTail ss hq)
]

-- A template that `Parse` accepts keeps its text, and is a literal with expressions and literals
-- in turn behind it; each expression has a term, and each term has a valid name and at most one
-- modifier.
pub parse-IsAlternating :
    (s : Bytes) {t : Template} → parse s ≡ ok t → (to_string t ≡ s) × IsAlternating t.parts
unfolding parse to_string
parse-IsAlternating s h =
    let (ps, hp, e) = >>=-eq-ok (parse_split (split b'{' s)) _ h in
    let (w, ws, c) = split_cons b'{' s in
    rw (← ok-injective e)
      (refl, parse_split-IsAlternating w ws (subst (λ l. parse_split l ≡ ok ps) c hp))
