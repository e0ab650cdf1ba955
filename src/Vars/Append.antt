-- ===== src/Vars/Append.antt =====
-- An array argument, over the array that a variable holds.
use joe_cli_http.Prelude.{
  ℕ, true, false, List, [], ◌∷◌, ◌++◌, none, some, Bytes, ◌≡◌, refl, ◌∙◌, All, ap,
}
use joe_cli_http.Prelude.Text.{
  equal_refl, cut-append, contains, codes, has_prefix, ends_in, ends_in-concat, drop_last-concat,
  split, join, split-append, split_absent,
}
use joe_cli_http.Prelude.Assoc.{lookup, lookup-insert}
use joe_cli_http.Template.Types.{Atom}
use joe_cli_http.Vars.{items, Vars, set_array, set_cut, set, array_over, array_items, trim_affix}

-- The argument that sets an array.
abbrev pub show_array : Bytes → List Bytes → Bytes
show_array k ts = k ++ b'=' ∷ b'[' ∷ (join (codes ",") ts ++ b']' ∷ [])

abbrev pub IsToken : Bytes → Type 0
IsToken t = contains t b',' ≡ false

split-join :
    (t : Bytes) (ts : List Bytes)
    → All IsToken (t ∷ ts)
    → split b',' (join (codes ",") (t ∷ ts)) ≡ t ∷ ts
unfolding join
split-join t [] h = split_absent b',' t h.0
split-join t (u ∷ us) h =
    split-append b',' t (join (codes ",") (u ∷ us)) h.0 ∙ ap (◌∷◌ t) (split-join u us h.1)

ends_in_cons : (c d : ℕ) (s : Bytes) → ends_in (c ∷ s ++ d ∷ []) d ≡ true
ends_in_cons c d s = ends_in-concat (c ∷ s) d

trim_affix_array : (s : Bytes) → trim_affix (b'[' ∷ s ++ b']' ∷ []) b'[' b']' ≡ s
unfolding trim_affix has_prefix
trim_affix_array s = rw (ends_in-concat s b']') (drop_last-concat s b']')

set-array_items :
    (vars : Vars) (k : Bytes) (t : Bytes) (ts : List Bytes)
    → contains k b'=' ≡ false
    → All IsToken (t ∷ ts)
    → set (some vars) (show_array k (t ∷ ts)) ≡ (set_array vars k (array_items (t ∷ ts)), none)
unfolding set set_cut has_prefix
set-array_items vars k t ts h hs = rw (
  cut-append b'=' k (b'[' ∷ (join (codes ",") (t ∷ ts) ++ b']' ∷ [])) h,
  ends_in_cons b'[' b']' (join (codes ",") (t ∷ ts)),
  trim_affix_array (join (codes ",") (t ∷ ts)),
  split-join t ts hs,
)

-- `Set` of an array puts its elements, trimmed, behind those of the array that the variable holds. The
-- name has no equals sign, and the elements, at least one, no comma.
pub set-show_array :
    (vars : Vars) (k : Bytes) (t : Bytes) (ts : List Bytes) (c : List Atom)
    → contains k b'=' ≡ false
    → All IsToken (t ∷ ts)
    → lookup k vars ≡ some (items c)
    → (lookup k (set (some vars) (show_array k (t ∷ ts))).0
        ≡ some (items (c ++ array_items (t ∷ ts))))
      × ((set (some vars) (show_array k (t ∷ ts))).1 ≡ none)
unfolding set_array array_over
set-show_array vars k t ts c h hs e =
    rw (set-array_items vars k t ts h hs) (rw (lookup-insert, equal_refl k, e) refl, refl)
