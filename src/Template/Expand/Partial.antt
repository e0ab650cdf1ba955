-- ===== src/Template/Expand/Partial.antt =====
-- What `PartialExpand` promises, and where it falls short of it.
use mathlib.Core.Path.{ap₂}
use joe_cli_http.Prelude.{
  ℕ, List, [], ◌∷◌, ◌++◌, suc, Bytes, length, ok, ◌≡◌, refl, sym, ap, ◌∙◌, arith, drop-append, inl,
  inr, ◌≢◌, ◌⊎◌, lt→ltb, >>=-eq-ok, ok-injective,
}
use joe_cli_http.Template.Types.{Term, Part, Template, Values, Input}
use joe_cli_http.Template.Parse.{literal, to_string, names}
use joe_cli_http.Template.Parse.Sound.{IsLiteral}
use joe_cli_http.Template.Expand.{
  expand_part, convert_to_values, expand, keep_missing, partial_parts, partial_expand,
}
use joe_cli_http.Template.Expand.Spec.{part_text, template_text}
use joe_cli_http.Template.Expand.Refines.{part_missing, expand_part-text, expand-template_text}
use joe_cli_http.Template.Expand.Complete.{
  IsComplete, literals, joined, part_texts, part_names-literals, template_text-literals,
  template_text-joined, partial_parts_complete, part_text-literal,
}

-- A template that is filled in: no variable is left, and it expands to its text whatever map of
-- values it is given.
pub record IsFilled (s : Bytes) (t : Template) : Type 0 where
  pub text : to_string t ≡ s
  pub no_names : names t ≡ []
  pub fixed : (values : Values) → expand t (Input.mapping values) ≡ ok s

-- Where every variable has a value, `PartialExpand` succeeds if `Expand` does, and gives a template
-- whose text is the expansion, which has no variables, and which expands to that text again with
-- any map of values.
pub partial_expand_complete :
    (u : Template) (value : Input) (values : Values) (s : Bytes)
    → convert_to_values value ≡ ok values
    → IsComplete u.parts values
    → expand u value ≡ ok s
    → (t : Template) × (partial_expand u value ≡ ok t) × IsFilled s t
unfolding partial_expand to_string names
partial_expand_complete u value values s c h e =
    let written : template_text u.parts values ≡ ok s = rw (expand-template_text, c) at e in
    let (ss, hss, hs) =
      >>=-eq-ok (part_texts u.parts values) _ (rw template_text-joined at written) in
    (
      record { raw = joined ss; parts = literals ss },
      rw (c, partial_parts_complete u.parts values [] h, hss),
      record {
        text = ok-injective hs;
        no_names = part_names-literals ss;
        fixed = λ vs.
            expand-template_text (record { raw = joined ss; parts = literals ss })
              (Input.mapping vs)
            ∙ unfold convert_to_values in template_text-literals ss vs ∙ hs;
      },
    )

-- Each part is a literal, or an expression with a variable that has no value.
abbrev pub IsOpen : List Part → Values → Type 0
IsOpen [] values = Unit
IsOpen (p ∷ ps) values = (IsLiteral p ⊎ (part_missing p values ≢ [])) × IsOpen ps values

part_missing-literal : (s : Bytes) (values : Values) → part_missing (literal s) values ≡ []
part_missing-literal [] values = refl
part_missing-literal (c ∷ s) values = rw (lt→ltb 0 (suc (length s)) (omega arith))

keep_missing-literal :
    (p : Part) (values : Values) (buf s : Bytes)
    → IsLiteral p
    → part_text p values ≡ ok s
    → (keep_missing p (length buf) (buf ++ s) (part_missing p values)).1 ≡ p
unfolding keep_missing
keep_missing-literal p values buf s h e =
    let same : p.raw ≡ s =
      ok-injective
        (sym (part_text-literal p.raw values) ∙ ap (λ q. part_text q values) (sym h) ∙ e) in
    let none_missing : part_missing p values ≡ [] =
      ap (λ q. part_missing q values) h ∙ part_missing-literal p.raw values in
    rw (none_missing, drop-append buf s) (sym (h ∙ ap literal same))

keep_missing-open :
    (p : Part) (n : ℕ) (buf : Bytes) (ts : List Term) → ts ≢ [] → (keep_missing p n buf ts).1 ≡ p
unfolding keep_missing
keep_missing-open p n buf [] h = absurd (h refl)
keep_missing-open p n buf (t ∷ ts) h = refl

partial_parts-open :
    (ps : List Part) (values : Values) (buf : Bytes) {r : Bytes × List Part}
    → IsOpen ps values
    → partial_parts ps buf values ≡ ok r
    → r.1 ≡ ps
unfolding partial_parts
partial_parts-open [] values buf h e = rw (← ok-injective e)
partial_parts-open (p ∷ ps) values buf (hp, hs) e =
    let (w, hw, e1) = >>=-eq-ok (expand_part p buf values) _ e in
    let (s, hst, e2) =
      >>=-eq-ok (part_text p values) _ (rw (expand_part-text p buf values) at hw) in
    let (rest, hr, e3) =
      >>=-eq-ok (partial_parts ps (keep_missing p (length buf) w.0 w.1).0 values) _ e1 in
    let tail = partial_parts-open ps values _ hs hr in
    let kept : (keep_missing p (length buf) w.0 w.1).1 ≡ p = elim hp [
      | inl l ↦
          ap (λ (v : Bytes × List Term). (keep_missing p (length buf) v.0 v.1).1)
            (sym (ok-injective e2))
          ∙ keep_missing-literal p values buf s l hst
      | inr o ↦
          keep_missing-open p (length buf) w.0 w.1
            (λ m. o (ap (λ (v : Bytes × List Term). v.1) (ok-injective e2) ∙ m))
    ] in
    sym (ap (λ (v : Bytes × List Part). v.1) (ok-injective e3)) ∙ ap₂ ◌∷◌ kept tail

-- Where every expression misses a variable, the result of `PartialExpand` holds the parts of the
-- template that it was given: expanding it is expanding that template, and the values of the first
-- call have no effect.
pub partial_expand-loses :
    (u t : Template) (value later : Input) (values : Values)
    → convert_to_values value ≡ ok values
    → IsOpen u.parts values
    → partial_expand u value ≡ ok t
    → expand t later ≡ expand u later
unfolding partial_expand
partial_expand-loses u t value later values c h e =
    let (r, hr, er) = >>=-eq-ok (partial_parts u.parts [] values) _ (rw (c, partial_expand) at e) in
    let same : t.parts ≡ u.parts =
      ap (λ (v : Template). v.parts) (sym (ok-injective er))
      ∙ partial_parts-open u.parts values [] h hr in
    expand-template_text t later ∙ rw same (sym (expand-template_text u later))
