-- ===== src/Template/Expand/Written.antt =====
-- What each kind of value writes into the buffer.
use joe_cli_http.Prelude.{
  ℕ, Bool, true, false, not, ◌&&◌, List, [], ◌∷◌, ◌++◌, ◌==◌, if◌then◌else◌, Bytes, length, ◌≡◌,
  sym, ap, ◌∙◌, arith, append-nil, append_assoc, Bool-cases, inl, inr, length-append, ◌<◌, ==_refl,
}
use joe_cli_http.Prelude.Text.{codes, join}
use joe_cli_http.Template.Types.{Term, Part, Atom}
use joe_cli_http.Template.Escape.{escape}
use joe_cli_http.Template.Expand.{
  clip, is_empty, sprint, expand_name, expand_string, expand_elements, expand_array, expand_entries,
  expand_map,
}
use joe_cli_http.Template.Expand.Spec.{
  name_text, string_text, element_text, element_texts, inner_sep, outer_name, array_text,
  entry_text, entry_texts, map_text,
}

-- Each text with the separator before it.
abbrev pub behind : Bytes → List Bytes → Bytes
behind sep [] = []
behind sep (w ∷ ws) = sep ++ (w ++ behind sep ws)

pub join-behind : (sep w : Bytes) (ws : List Bytes) → join sep (w ∷ ws) ≡ w ++ behind sep ws
unfolding join
join-behind sep w [] = sym (append-nil w)
join-behind sep w (v ∷ vs) = ap (λ s. w ++ (sep ++ s)) (join-behind sep v vs)

expand_name-text :
    (t : Part) (buf name : Bytes) (e : Bool) → expand_name t buf name e ≡ buf ++ name_text t name e
unfolding expand_name
expand_name-text t buf name e = elim (Bool-cases t.named) [
  | inl h ↦ rw h (append_assoc buf name _)
  | inr h ↦ rw h (sym (append-nil buf))
]

pub expand_string-text :
    (t : Part) (buf : Bytes) (term : Term) (s : Bytes)
    → expand_string t buf term s ≡ buf ++ string_text t term s
expand_string-text t buf term s =
    unfold expand_string in simp (expand_name-text t buf term.name _, append_assoc)

expand_element :
    (t : Part) (buf : Bytes) (term : Term) (s : Bytes)
    → (if t.named && term.explode
          then expand_name t buf term.name (is_empty (clip term.truncate s))
          else buf)
        ++ escape (clip term.truncate s) t.allow_reserved
      ≡ buf ++ element_text t term s
expand_element t buf term s = elim (Bool-cases term.explode) [
  | inl h ↦ elim (Bool-cases t.named) [
    | inl k ↦ simp (h, k, expand_name-text t buf term.name _, append_assoc)
    | inr k ↦ simp (h, k)
  ]
  | inr h ↦ elim (Bool-cases t.named) [ inl k ↦ simp (h, k) | inr k ↦ simp (h, k) ]
]

separate : (t : Part) (buf : Bytes) (term : Term) → Bytes
separate t buf term = if term.explode && true then buf ++ t.sep else buf ++ codes ","

separate-inner_sep :
    (t : Part) (buf : Bytes) (term : Term) → separate t buf term ≡ buf ++ inner_sep t term
unfolding separate
separate-inner_sep t buf term = elim (Bool-cases term.explode) [ inl h ↦ simp h | inr h ↦ simp h ]

expand_elements-behind :
    (t : Part) (term : Term) (ss : List Bytes) (buf : Bytes)
    → expand_elements t buf term true ss
      ≡ buf ++ behind (inner_sep t term) (element_texts t term ss)
unfolding expand_elements separate
expand_elements-behind t term [] buf = sym (append-nil buf)
expand_elements-behind t term (s ∷ ss) buf =
    expand_elements-behind t term ss _
    ∙ ap (λ b. b ++ behind (inner_sep t term) (element_texts t term ss))
        (expand_element t (separate t buf term) term s
          ∙ ap (λ b. b ++ element_text t term s) (separate-inner_sep t buf term))
    ∙ append_assoc (buf ++ inner_sep t term) (element_text t term s) _
    ∙ append_assoc buf (inner_sep t term) _

unseparated : (term : Term) (b buf : Bytes) → (if term.explode && false then b else buf) ≡ buf
unseparated term b buf = elim (Bool-cases term.explode) [ inl h ↦ simp h | inr h ↦ simp h ]

open_array : Part → Bytes → Term → Bytes
open_array t buf term = if not term.explode then expand_name t buf term.name false else buf

open_array-outer_name :
    (t : Part) (buf : Bytes) (term : Term) → open_array t buf term ≡ buf ++ outer_name t term
unfolding open_array
open_array-outer_name t buf term = elim (Bool-cases term.explode) [
  | inl h ↦ simp (h, append-nil)
  | inr h ↦ simp (h, expand_name-text t buf term.name false)
]

expand_elements_first :
    (t : Part) (buf : Bytes) (term : Term) (s : Bytes) (ss : List Bytes)
    → expand_elements t buf term false (s ∷ ss)
      ≡ buf ++ join (inner_sep t term) (element_texts t term (s ∷ ss))
unfolding expand_elements
expand_elements_first t buf term s ss =
    expand_elements-behind t term ss _
    ∙ ap (λ b. b ++ behind (inner_sep t term) (element_texts t term ss))
        (rw (unseparated term (buf ++ t.sep) buf) (expand_element t buf term s))
    ∙ append_assoc buf (element_text t term s) _
    ∙ ap (λ r. buf ++ r) (sym (join-behind (inner_sep t term) (element_text t term s) _))

pub expand_array-text :
    (t : Part) (buf : Bytes) (term : Term) (ss : List Bytes)
    → expand_array t buf term ss ≡ buf ++ array_text t term ss
unfolding expand_array open_array
expand_array-text t buf term [] = sym (append-nil buf)
expand_array-text t buf term (s ∷ ss) =
    expand_elements_first t (open_array t buf term) term s ss
    ∙ ap (λ b. b ++ join (inner_sep t term) (element_texts t term (s ∷ ss)))
        (open_array-outer_name t buf term)
    ∙ append_assoc buf (outer_name t term) _

entry_onto : Part → Bytes → Term → Bytes → Atom → Bytes
entry_onto t buf term k v =
    ((buf ++ escape k t.allow_reserved) ++ (if term.explode then codes "=" else codes ","))
    ++ escape (sprint v) t.allow_reserved

entry_onto-text :
    (t : Part) (buf : Bytes) (term : Term) (k : Bytes) (v : Atom)
    → entry_onto t buf term k v ≡ buf ++ entry_text t term k v
unfolding entry_onto
entry_onto-text t buf term k v = simp append_assoc

-- Every entry writes at least the byte between its key and its value.
entry_text-pos :
    (t : Part) (term : Term) (k : Bytes) (v : Atom) → 0 < length (entry_text t term k v)
entry_text-pos t term k v = elim (Bool-cases term.explode) [
  | inl h ↦ simp (h, length-append) (omega arith)
  | inr h ↦ simp (h, length-append) (omega arith)
]

entry_onto-grows :
    (t : Part) (buf : Bytes) (term : Term) (k : Bytes) (v : Atom)
    → length buf < length (entry_onto t buf term k v)
entry_onto-grows t buf term k v =
    rw (entry_onto-text t buf term k v, length-append) (omega (arith, entry_text-pos t term k v))

separate_entry : Part → ℕ → Bytes → Term → Bytes
separate_entry t first_len buf term =
    if not (first_len == length buf)
    then if term.explode then buf ++ t.sep else buf ++ codes ","
    else buf

separate_entry-inner_sep :
    (t : Part) (n : ℕ) (buf : Bytes) (term : Term)
    → n < length buf
    → separate_entry t n buf term ≡ buf ++ inner_sep t term
unfolding separate_entry
separate_entry-inner_sep t n buf term h =
    let e : (n == length buf) ≡ false = ground arith in
    elim (Bool-cases term.explode) [ inl k ↦ simp (e, k) | inr k ↦ simp (e, k) ]

separate_entry-le :
    (t : Part) (n : ℕ) (buf : Bytes) (term : Term)
    → n < length buf
    → n < length (separate_entry t n buf term)
separate_entry-le t n buf term h =
    rw (separate_entry-inner_sep t n buf term h, length-append) (omega arith)

expand_entries-behind :
    (t : Part) (n : ℕ) (term : Term) (m : List (Bytes × Atom)) (buf : Bytes)
    → n < length buf
    → expand_entries t n buf term m ≡ buf ++ behind (inner_sep t term) (entry_texts t term m)
unfolding expand_entries separate_entry entry_onto
expand_entries-behind t n term [] buf h = sym (append-nil buf)
expand_entries-behind t n term ((k, v) ∷ m) buf h =
    let sep' = separate_entry t n buf term in
    let later = behind (inner_sep t term) (entry_texts t term m) in
    expand_entries-behind t n term m _
      (omega (arith, entry_onto-grows t sep' term k v, separate_entry-le t n buf term h))
    ∙ ap (λ b. b ++ later)
        (entry_onto-text t sep' term k v
          ∙ ap (λ b. b ++ entry_text t term k v) (separate_entry-inner_sep t n buf term h))
    ∙ append_assoc (buf ++ inner_sep t term) (entry_text t term k v) later
    ∙ append_assoc buf (inner_sep t term) _

expand_entries_first :
    (t : Part) (buf : Bytes) (term : Term) (k : Bytes) (v : Atom) (m : List (Bytes × Atom))
    → expand_entries t (length buf) buf term ((k, v) ∷ m)
      ≡ buf ++ join (inner_sep t term) (entry_texts t term ((k, v) ∷ m))
unfolding expand_entries entry_onto
expand_entries_first t buf term k v m =
    let later = behind (inner_sep t term) (entry_texts t term m) in
    rw (==_refl (length buf)) (
      expand_entries-behind t (length buf) term m _ (entry_onto-grows t buf term k v)
      ∙ ap (λ b. b ++ later) (entry_onto-text t buf term k v)
      ∙ append_assoc buf (entry_text t term k v) later
      ∙ ap (λ r. buf ++ r) (sym (join-behind (inner_sep t term) (entry_text t term k v) _)))

pub expand_map-text :
    (t : Part) (buf : Bytes) (term : Term) (m : List (Bytes × Atom))
    → expand_map t buf term m ≡ buf ++ map_text t term m
unfolding expand_map open_array
expand_map-text t buf term [] = sym (append-nil buf)
expand_map-text t buf term ((k, v) ∷ m) =
    expand_entries_first t (open_array t buf term) term k v m
    ∙ ap (λ b. b ++ join (inner_sep t term) (entry_texts t term ((k, v) ∷ m)))
        (open_array-outer_name t buf term)
    ∙ append_assoc buf (outer_name t term) _
