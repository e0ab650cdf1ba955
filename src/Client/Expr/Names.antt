-- ===== src/Client/Expr/Names.antt =====
-- The names of headers in expressions.
use joe_cli_http.Prelude.{
  ℕ, true, false, ◌||◌, List, [], ◌∷◌, ◌++◌, Bytes, ◌≡◌, refl, All, Bool-cases, inl, inr,
}
use joe_cli_http.Prelude.Text.{codes, contains, contains-append, join}
use joe_cli_http.Client.Expr.{
  is_upper, is_lower, words_from, with_first, find_words, header_canonical_name,
}

abbrev pub HasNoCapital : Bytes → Type 0
HasNoCapital [] = Unit
HasNoCapital (c ∷ s) = (is_upper c ≡ false) × HasNoCapital s

-- A capital letter, and then none, and no dash
abbrev pub IsWord : Bytes → Type 0
IsWord [] = ⊥
IsWord (c ∷ s) = (is_upper c ≡ true) × HasNoCapital s × (contains (c ∷ s) b'-' ≡ false)

-- A word whose letter in front may also be a small one
abbrev pub IsFirstWord : Bytes → Type 0
IsFirstWord [] = ⊥
IsFirstWord (c ∷ s) =
    ((is_upper c || is_lower c) ≡ true) × HasNoCapital s × (contains (c ∷ s) b'-' ≡ false)

abbrev pub concat : List Bytes → Bytes
concat [] = []
concat (w ∷ ws) = w ++ concat ws

words_from-run :
    (s t : Bytes) (ws : List Bytes)
    → HasNoCapital s
    → words_from t ≡ ([], ws)
    → words_from (s ++ t) ≡ (s, ws)
unfolding words_from
words_from-run [] t ws h e = e
words_from-run (c ∷ s) t ws h e = rw (h.0, words_from-run s t ws h.1 e) refl

words_from-concat : (ws : List Bytes) → All IsWord ws → words_from (concat ws) ≡ ([], ws)
unfolding words_from
words_from-concat [] h = refl
words_from-concat ([] ∷ ws) h = absurd h.0
words_from-concat ((c ∷ s) ∷ ws) ((up, low, dash), h) =
    rw (up, words_from-run s (concat ws) ws low (words_from-concat ws h)) refl

concat_no_dash : (ws : List Bytes) → All IsWord ws → contains (concat ws) b'-' ≡ false
concat_no_dash [] h = unfold contains in refl
concat_no_dash ([] ∷ ws) h = absurd h.0
concat_no_dash ((c ∷ s) ∷ ws) ((up, low, dash), h) =
    contains-append (c ∷ s) (concat ws) b'-' dash (concat_no_dash ws h)

words_from-small :
    (c : ℕ) (s t : Bytes) (ws : List Bytes)
    → is_upper c ≡ false
    → words_from (s ++ t) ≡ (s, ws)
    → words_from (c ∷ (s ++ t)) ≡ (c ∷ s, ws)
unfolding words_from
words_from-small c s t ws down e = rw (down, e) refl

words_from-capital :
    (c : ℕ) (s t : Bytes) (ws : List Bytes)
    → is_upper c ≡ true
    → words_from (s ++ t) ≡ (s, ws)
    → words_from (c ∷ (s ++ t)) ≡ ([], (c ∷ s) ∷ ws)
unfolding words_from
words_from-capital c s t ws up e = rw (up, e) refl

find_words-concat :
    (w : Bytes) (ws : List Bytes)
    → IsFirstWord w
    → All IsWord ws
    → find_words (w ++ concat ws) ≡ w ∷ ws
unfolding find_words with_first
find_words-concat [] ws w h = absurd w
find_words-concat (c ∷ s) ws (letter, low, dash) h =
    let e = words_from-run s (concat ws) ws low (words_from-concat ws h) in
    elim (Bool-cases (is_upper c)) [
      | inl up ↦ rw (words_from-capital c s (concat ws) ws up e) refl
      | inr down ↦
          let lower : is_lower c ≡ true = rw down at letter in
          rw (words_from-small c s (concat ws) ws down e, lower) refl
    ]

-- Words that are written together, each with a capital letter in front, but for the first perhaps, and
-- with no other capital and no dash, become the name of a header with dashes between them.
pub header_canonical_name-concat :
    (w : Bytes) (ws : List Bytes)
    → IsFirstWord w
    → All IsWord ws
    → header_canonical_name (w ++ concat ws) ≡ join (codes "-") (w ∷ ws)
unfolding header_canonical_name
header_canonical_name-concat [] ws w h = absurd w
header_canonical_name-concat (c ∷ s) ws (letter, low, dash) h =
    rw
      (
        contains-append (c ∷ s) (concat ws) b'-' dash (concat_no_dash ws h),
        find_words-concat (c ∷ s) ws (letter, low, dash) h,
      )
      refl
