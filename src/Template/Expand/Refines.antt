-- ===== src/Template/Expand/Refines.antt =====
-- The buffer code writes what the specification says.
use joe_cli_http.Prelude.{
  ℕ, false, not, List, [], ◌∷◌, ◌++◌, Option, none, some, ltb, ◌==◌, if◌then◌else◌, Bytes, length,
  take, Outcome, ok, err, panics, ◌>>=◌, ◌≡◌, refl, sym, ap, ◌∙◌, arith, append-nil, append_assoc,
  take-append, Bool-cases, Option-cases, inl, inr, length-append, ==_refl, >>=_assoc,
}
use mathlib.Core.Path.{fun_ext}
use joe_cli_http.Prelude.Text.{join}
use joe_cli_http.Prelude.Assoc.{lookup}
use joe_cli_http.Template.Types.{Term, Part, Template, Error, Atom, Value, Values, Input}
use joe_cli_http.Template.Parse.{is_positive}
use joe_cli_http.Template.Expand.{
  is_empty, sprint_all, expand_dict, expand_default, expand_value, expand_terms, expand_part,
  expand_parts, convert_to_values, expand,
}
use joe_cli_http.Template.Expand.Written.{
  behind, join-behind, expand_string-text, expand_array-text, expand_map-text,
}
use joe_cli_http.Template.Expand.Spec.{
  dict_text, default_text, value_text, texts, missing, skip_empty, headed, part_text, template_text,
}

abbrev pub append_to : Bytes → Bytes → Outcome Error Bytes
append_to buf s = ok (buf ++ s)

ok_append : (o : Outcome Error Bytes) → (o >>= append_to []) ≡ o
ok_append (ok s) = refl
ok_append (err e) = refl
ok_append panics = refl

expand_dict-text :
    (t : Part) (buf : Bytes) (term : Term) (m : List (Bytes × Atom))
    → expand_dict t buf term m ≡ (dict_text t term m >>= append_to buf)
unfolding expand_dict
expand_dict-text t buf term m = elim (Bool-cases (is_positive term.truncate)) [
  | inl e ↦ rw e
  | inr e ↦ rw e (ap ok (expand_map-text t buf term m))
]

expand_default-text :
    (t : Part) (buf : Bytes) (term : Term) (shown : Bytes)
    (o : Outcome Error (Option (List (Bytes × Atom))))
    → (o >>= expand_default t buf term shown)
      ≡ ((o >>= default_text t term shown) >>= append_to buf)
expand_default-text t buf term shown (ok (some m)) = expand_dict-text t buf term m
expand_default-text t buf term shown (ok none) = ap ok (expand_string-text t buf term shown)
expand_default-text t buf term shown (err e) = refl
expand_default-text t buf term shown panics = refl

expand_value-text :
    (t : Part) (buf : Bytes) (term : Term) (v : Value)
    → expand_value t buf term v ≡ (value_text t term v >>= append_to buf)
unfolding expand_value
expand_value-text t buf term Value.null = expand_default-text t buf term [] _
expand_value-text t buf term (Value.text s) = ap ok (expand_string-text t buf term s)
expand_value-text t buf term (Value.texts a) = ap ok (expand_array-text t buf term a)
expand_value-text t buf term (Value.items a) = ap ok (expand_array-text t buf term (sprint_all a))
expand_value-text t buf term (Value.dict m) = expand_dict-text t buf term m
expand_value-text t buf term (Value.structure fs) = expand_default-text t buf term [] _
expand_value-text t buf term (Value.reference shown v) = expand_default-text t buf term shown _
expand_value-text t buf term (Value.other shown) = expand_default-text t buf term shown _

-- What the loop adds behind the text `acc` that it has written after `first`.
abbrev grow : Bytes → Bytes → List Bytes → Bytes
grow sep acc [] = acc
grow sep acc (s ∷ ss) = grow sep (if is_empty acc then s else acc ++ (sep ++ s)) ss

grow-behind :
    (sep : Bytes) (c : ℕ) (ss : List Bytes) (acc : Bytes)
    → grow sep (c ∷ acc) ss ≡ (c ∷ acc) ++ behind sep ss
grow-behind sep c [] acc = sym (append-nil (c ∷ acc))
grow-behind sep c (s ∷ ss) acc = grow-behind sep c ss (acc ++ (sep ++ s)) ∙ simp append_assoc

grow-join : (sep : Bytes) (ss : List Bytes) → grow sep [] ss ≡ join sep (skip_empty ss)
unfolding join
grow-join sep [] = refl
grow-join sep ([] ∷ ss) = grow-join sep ss
grow-join sep ((c ∷ s) ∷ ss) = grow-behind sep c ss s ∙ sym (join-behind sep (c ∷ s) ss)

-- A separator is written exactly if something stands behind `first`.
separate_value :
    (t : Part) (h acc : Bytes) (s : Bytes)
    → (if not (length (h ++ acc) == length h) then (h ++ acc) ++ t.sep else h ++ acc) ++ s
      ≡ h ++ (if is_empty acc then s else acc ++ (t.sep ++ s))
separate_value t h [] s = rw (append-nil, ==_refl (length h))
separate_value t h (c ∷ acc) s =
    let e : (length (h ++ c ∷ acc) == length h) ≡ false = rw length-append (ground arith) in
    rw e (simp append_assoc)

abbrev with_missing : Bytes → List Term → Bytes → Outcome Error (Bytes × List Term)
with_missing buf ts s = ok (buf ++ s, ts)

-- What the loop returns from the terms on, behind the text `acc`.
abbrev terms_result : Part → Values → Bytes → List Term → Bytes → Outcome Error (Bytes × List Term)
terms_result t values h terms acc =
    texts t values terms >>= λ ss. with_missing h (missing values terms) (grow t.sep acc ss)

-- One term with a value, given the loop over the rest.
step_value :
    (t : Part) (values : Values) (h : Bytes) (terms : List Term)
    (rec : (acc : Bytes)
      → expand_terms t values (length h) (h ++ acc) terms ≡ terms_result t values h terms acc)
    (acc : Bytes) (o : Outcome Error Bytes)
    → (o
        >>= append_to
            (if not (length (h ++ acc) == length h) then (h ++ acc) ++ t.sep else h ++ acc)
        >>= λ buf'. expand_terms t values (length h) buf' terms)
      ≡ (o >>= (λ s. texts t values terms >>= λ ss. ok (s ∷ ss)) >>= λ ss.
          with_missing h (missing values terms) (grow t.sep acc ss))
step_value t values h terms rec acc (ok s) =
    ap (λ b. expand_terms t values (length h) b terms) (separate_value t h acc s)
    ∙ rec (if is_empty acc then s else acc ++ (t.sep ++ s))
    ∙ sym (>>=_assoc (texts t values terms) _ _)
step_value t values h terms rec acc (err e) = refl
step_value t values h terms rec acc panics = refl

expand_terms-texts :
    (t : Part) (values : Values) (h : Bytes) (terms : List Term) (acc : Bytes)
    → expand_terms t values (length h) (h ++ acc) terms ≡ terms_result t values h terms acc
unfolding expand_terms
expand_terms-texts t values h [] acc = refl
expand_terms-texts t values h (term ∷ terms) acc = elim (Option-cases (lookup term.name values)) [
  | inl e ↦
      rw (e, expand_terms, texts, missing)
        (rw (expand_terms-texts t values h terms acc) (>>=_assoc (texts t values terms) _ _))
  | inr (v, e) ↦
      rw (e, expand_terms, texts, missing)
        (rw expand_value-text (
          step_value t values h terms (expand_terms-texts t values h terms) acc
            (value_text t term v)))
]

-- Behind the loop: what was written after `first`, or nothing.
settle :
    (buf first body : Bytes)
    → (if length ((buf ++ first) ++ body) == length (buf ++ first)
        then take (length buf) ((buf ++ first) ++ body)
        else (buf ++ first) ++ body)
      ≡ buf ++ headed first body
settle buf first [] =
    rw append-nil
      (rw (==_refl (length (buf ++ first))) (take-append buf first ∙ sym (append-nil buf)))
settle buf first (c ∷ s) =
    let e : (length ((buf ++ first) ++ c ∷ s) == length (buf ++ first)) ≡ false =
      rw length-append (ground arith) in
    rw e (append_assoc buf first (c ∷ s))

-- The terms that an expression leaves open.
abbrev pub part_missing : Part → Values → List Term
part_missing t values = if ltb 0 (length t.raw) then [] else missing values t.terms

settle_terms :
    (t : Part) (buf : Bytes) (ts : List Term) (o : Outcome Error (List Bytes))
    → (o >>= (λ ss. with_missing (buf ++ t.first) ts (grow t.sep [] ss)) >>= λ r.
        ok ((if length r.0 == length (buf ++ t.first) then take (length buf) r.0 else r.0), r.1))
      ≡ (o >>= (λ ss. ok (headed t.first (join t.sep (skip_empty ss)))) >>= with_missing buf ts)
settle_terms t buf ts (ok ss) =
    rw (grow-join t.sep ss) (ap (λ b. ok (b, ts)) (settle buf t.first (join t.sep (skip_empty ss))))
settle_terms t buf ts (err e) = refl
settle_terms t buf ts panics = refl

expand_terms_start :
    (t : Part) (values : Values) (h : Bytes) (terms : List Term)
    → expand_terms t values (length h) h terms ≡ terms_result t values h terms []
expand_terms_start t values h terms =
    ap (λ b. expand_terms t values (length h) b terms) (sym (append-nil h))
    ∙ expand_terms-texts t values h terms []

-- `expand` appends the text of the part to the buffer, and returns the variables that have no
-- value, in their order; or it fails as the part's text does.
pub expand_part-text :
    (t : Part) (buf : Bytes) (values : Values)
    → expand_part t buf values ≡ (part_text t values >>= λ s. ok (buf ++ s, part_missing t values))
unfolding expand_part
expand_part-text t buf values = elim (Bool-cases (ltb 0 (length t.raw))) [
  | inl e ↦ rw e
  | inr e ↦ rw e (
      rw (expand_terms_start t values (buf ++ t.first) t.terms)
        (settle_terms t buf (missing values t.terms) (texts t values t.terms)))
]

append_to-append :
    (buf s : Bytes) (o : Outcome Error Bytes)
    → (o >>= append_to (buf ++ s)) ≡ (o >>= (λ rest. ok (s ++ rest)) >>= append_to buf)
append_to-append buf s (ok r) = ap ok (append_assoc buf s r)
append_to-append buf s (err e) = refl
append_to-append buf s panics = refl

expand_parts_step :
    (buf : Bytes) (ts : List Term) (values : Values) (ps : List Part)
    (rec : (buf : Bytes) → expand_parts ps buf values ≡ (template_text ps values >>= append_to buf))
    (o : Outcome Error Bytes)
    → (o >>= with_missing buf ts >>= λ r. expand_parts ps r.0 values)
      ≡ (o >>= (λ s. template_text ps values >>= λ rest. ok (s ++ rest)) >>= append_to buf)
expand_parts_step buf ts values ps rec (ok s) =
    rec (buf ++ s) ∙ append_to-append buf s (template_text ps values)
expand_parts_step buf ts values ps rec (err e) = refl
expand_parts_step buf ts values ps rec panics = refl

pub expand_parts-text :
    (ps : List Part) (values : Values) (buf : Bytes)
    → expand_parts ps buf values ≡ (template_text ps values >>= append_to buf)
unfolding expand_parts
expand_parts-text [] values buf = ap ok (sym (append-nil buf))
expand_parts-text (p ∷ ps) values buf = rw (expand_part-text p buf values) (
    expand_parts_step buf (part_missing p values) values ps (expand_parts-text ps values)
      (part_text p values))

-- `Expand` gives what the specification says of the template's parts at the values that its
-- argument stands for: each literal, and for each expression the texts of its variables that have
-- a value, from the first text that is not empty, with the separator between them and the
-- operator before them. It fails, or panics, exactly if the argument or a variable's text does.
pub expand-template_text :
    (u : Template) (value : Input)
    → expand u value ≡ (convert_to_values value >>= λ values. template_text u.parts values)
unfolding expand
expand-template_text u value =
    ap (λ k. convert_to_values value >>= k)
      (fun_ext
        λ values. expand_parts-text u.parts values [] ∙ ok_append (template_text u.parts values))
