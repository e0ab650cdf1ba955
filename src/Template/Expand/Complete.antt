-- ===== src/Template/Expand/Complete.antt =====
-- `PartialExpand` part by part, where every variable has a value.
use joe_cli_http.Prelude.{
  List, [], ◌∷◌, ◌++◌, suc, Bytes, length, drop, Outcome, ok, err, panics, ◌>>=◌, ◌≡◌, refl, sym,
  ap, ◌∙◌, arith, append-nil, append_assoc, drop-append, >>=_assoc, lt→ltb,
}
use joe_cli_http.Prelude.Text.{join}
use joe_cli_http.Template.Types.{Part, Error, Values}
use joe_cli_http.Template.Parse.{literal, part_names}
use joe_cli_http.Template.Expand.{keep_missing, partial_parts}
use joe_cli_http.Template.Expand.Spec.{part_text, template_text}
use joe_cli_http.Template.Expand.Refines.{part_missing, expand_part-text}

-- No expression has a variable without a value.
abbrev pub IsComplete : List Part → Values → Type 0
IsComplete [] values = Unit
IsComplete (p ∷ ps) values = (part_missing p values ≡ []) × IsComplete ps values

abbrev pub literals : List Bytes → List Part
literals [] = []
literals (s ∷ ss) = literal s ∷ literals ss

abbrev pub joined : List Bytes → Bytes
joined [] = []
joined (s ∷ ss) = s ++ joined ss

-- The texts of the parts.
abbrev pub part_texts : List Part → Values → Outcome Error (List Bytes)
part_texts [] values = ok []
part_texts (p ∷ ps) values = do s ← part_text p values; ss ← part_texts ps values; ok (s ∷ ss)

pub template_text-joined :
    (ps : List Part) (values : Values)
    → template_text ps values ≡ (part_texts ps values >>= λ ss. ok (joined ss))
template_text-joined [] values = refl
template_text-joined (p ∷ ps) values = rw (template_text-joined ps values) (go (part_text p values))
  where
    later :
        (s : Bytes) (o : Outcome Error (List Bytes))
        → (o >>= (λ ss. ok (joined ss)) >>= λ rest. ok (s ++ rest))
          ≡ (o >>= (λ ss. ok (s ∷ ss)) >>= λ ss. ok (joined ss))
    later s (ok ss) = refl
    later s (err e) = refl
    later s panics = refl

    go :
        (o : Outcome Error Bytes)
        → (o >>= λ s. (part_texts ps values >>= λ ss. ok (joined ss)) >>= λ rest. ok (s ++ rest))
          ≡ (o >>= (λ s. part_texts ps values >>= λ ss. ok (s ∷ ss)) >>= λ ss. ok (joined ss))
    go (ok s) = later s (part_texts ps values)
    go (err e) = refl
    go panics = refl

abbrev pub complete_result : Bytes → List Bytes → Outcome Error (Bytes × List Part)
complete_result buf ss = ok (buf ++ joined ss, literals ss)

complete_step :
    (p : Part) (ps : List Part) (values : Values) (buf : Bytes)
    (rec : (buf : Bytes)
      → partial_parts ps buf values ≡ (part_texts ps values >>= complete_result buf))
    (o : Outcome Error Bytes)
    → (o >>= λ s. partial_parts ps (buf ++ s) values >>= λ rest.
        ok (rest.0, literal (drop (length buf) (buf ++ s)) ∷ rest.1))
      ≡ (o >>= (λ s. part_texts ps values >>= λ ss. ok (s ∷ ss)) >>= complete_result buf)
complete_step p ps values buf rec (ok s) =
    rw (rec (buf ++ s), drop-append buf s) (go (part_texts ps values))
  where
    go :
        (o : Outcome Error (List Bytes))
        → (o >>= complete_result (buf ++ s) >>= λ rest. ok (rest.0, literal s ∷ rest.1))
          ≡ (o >>= (λ ss. ok (s ∷ ss)) >>= complete_result buf)
    go (ok ss) = ap (λ b. ok (b, literal s ∷ literals ss)) (append_assoc buf s (joined ss))
    go (err e) = refl
    go panics = refl
complete_step p ps values buf rec (err e) = refl
complete_step p ps values buf rec panics = refl

-- With no variable missing, every part becomes the literal of its text.
pub partial_parts_complete :
    (ps : List Part) (values : Values) (buf : Bytes)
    → IsComplete ps values
    → partial_parts ps buf values ≡ (part_texts ps values >>= complete_result buf)
unfolding partial_parts keep_missing
partial_parts_complete [] values buf h = ap (λ b. ok (b, [])) (sym (append-nil buf))
partial_parts_complete (p ∷ ps) values buf (hp, hs) =
    rw (expand_part-text p buf values, hp)
      (>>=_assoc (part_text p values) _ _
        ∙ complete_step p ps values buf (λ b. partial_parts_complete ps values b hs)
            (part_text p values))

pub part_text-literal : (s : Bytes) (values : Values) → part_text (literal s) values ≡ ok s
unfolding join
part_text-literal [] values = refl
part_text-literal (c ∷ s) values = rw (lt→ltb 0 (suc (length s)) (omega arith))

pub template_text-literals :
    (ss : List Bytes) (values : Values) → template_text (literals ss) values ≡ ok (joined ss)
template_text-literals [] values = refl
template_text-literals (s ∷ ss) values =
    rw (part_text-literal s values) (rw (template_text-literals ss values))

pub part_names-literals : (ss : List Bytes) → part_names (literals ss) ≡ []
unfolding part_names
part_names-literals [] = refl
part_names-literals ([] ∷ ss) = part_names-literals ss
part_names-literals ((c ∷ s) ∷ ss) =
    rw (lt→ltb 0 (suc (length s)) (omega arith)) (part_names-literals ss)
