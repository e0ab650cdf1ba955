-- ===== src/Prelude/Text.antt =====
-- What the program uses of Go's `strings` and `bytes` packages, over lists of bytes.
use Prim.Native.Char.{code}
use Prim.Native.String.{String}
use Prim.Native.Nat.{ℕ}
use mathlib.Core.Path.{◌≡◌, refl, ap}
use mathlib.Core.Logic.{◌↔◌, inl, inr}
use mathlib.Core.Bool.{Bool, true, false, ◌&&◌, ◌||◌}
use mathlib.Core.List.{List, [], ◌∷◌, ◌++◌, reverse}
use native.Mathlib.Omega.{arith}
use joe_cli_http.Prelude.Tests.{◌==◌, leb, if◌then◌else◌, Bool-cases}
use joe_cli_http.Prelude.Lists.{Bytes}

-- The code points of a text: its bytes, if it is ASCII.
abbrev pub codes : String → Bytes
codes String.[] = []
codes (String.◌∷◌ c s) = code c ∷ codes s

-- `==` on strings, and `bytes.Equal`.
unfoldable pub equal : Bytes → Bytes → Bool
equal [] [] = true
equal (x ∷ xs) (y ∷ ys) = x == y && equal xs ys
equal _ _ = false

pub equal_iff : (s t : Bytes) → (equal s t ≡ true) ↔ (s ≡ t)
unfolding equal
equal_iff [] t = ground arith
equal_iff (c ∷ s) [] = ground arith
equal_iff (c ∷ s) (d ∷ t) = ground (arith, equal_iff s t)

pub equal_refl : (a : Bytes) → equal a a ≡ true
equal_refl a = (equal_iff a a).1 refl

-- `strings.Contains`, for a text of one byte.
unfoldable pub contains : Bytes → ℕ → Bool
contains [] c = false
contains (x ∷ xs) c = x == c || contains xs c

-- `strings.HasPrefix`.
unfoldable pub has_prefix : Bytes → Bytes → Bool
has_prefix s [] = true
has_prefix [] (p ∷ ps) = false
has_prefix (x ∷ xs) (p ∷ ps) = x == p && has_prefix xs ps

pub has_prefix-append : (p s : Bytes) → has_prefix (p ++ s) p ≡ true
unfolding has_prefix
has_prefix-append [] s = refl
has_prefix-append (x ∷ p) s = ground (arith, has_prefix-append p s)

-- `strings.HasSuffix`, for a text of one byte.
unfoldable pub ends_in : Bytes → ℕ → Bool
ends_in [] c = false
ends_in (x ∷ []) c = x == c
ends_in (x ∷ y ∷ s) c = ends_in (y ∷ s) c

-- `s[:len(s)-1]`.
unfoldable pub drop_last : Bytes → Bytes
drop_last [] = []
drop_last (x ∷ []) = []
drop_last (x ∷ y ∷ s) = x ∷ drop_last (y ∷ s)

pub ends_in-concat : (s : Bytes) (c : ℕ) → ends_in (s ++ c ∷ []) c ≡ true
unfolding ends_in
ends_in-concat [] c = ground arith
ends_in-concat (x ∷ []) c = ground arith
ends_in-concat (x ∷ y ∷ s) c = ends_in-concat (y ∷ s) c

pub drop_last-concat : (s : Bytes) (c : ℕ) → drop_last (s ++ c ∷ []) ≡ s
unfolding drop_last
drop_last-concat [] c = refl
drop_last-concat (x ∷ []) c = refl
drop_last-concat (x ∷ y ∷ s) c = ap (◌∷◌ x) (drop_last-concat (y ∷ s) c)

-- `strings.Cut` at a text of one byte: before, after, and whether it was found.
unfoldable pub cut : ℕ → Bytes → Bytes × Bytes × Bool
cut c [] = ([], [], false)
cut c (x ∷ xs) =
    let (before, after, found) = cut c xs in
    if x == c then ([], xs, true) else (x ∷ before, after, found)

pub cut-append : (c : ℕ) (a b : Bytes) → contains a c ≡ false → cut c (a ++ c ∷ b) ≡ (a, b, true)
unfolding cut contains
cut-append c [] b h = ground arith
cut-append c (x ∷ a) b h = ground (arith, cut-append c a b)

pub cut_absent : (c : ℕ) (a : Bytes) → contains a c ≡ false → cut c a ≡ (a, [], false)
unfolding cut contains
cut_absent c [] h = refl
cut_absent c (x ∷ a) h = ground (arith, cut_absent c a)

-- The byte goes in front of the first piece.
unfoldable pub onto_first : ℕ → List Bytes → List Bytes
onto_first x [] = (x ∷ []) ∷ []
onto_first x (w ∷ ws) = (x ∷ w) ∷ ws

-- `strings.Split` at a text of one byte.
unfoldable pub split : ℕ → Bytes → List Bytes
unfolding onto_first
split c [] = [] ∷ []
split c (x ∷ xs) = let rest = split c xs in if x == c then [] ∷ rest else onto_first x rest

-- `strings.Join`.
unfoldable pub join : Bytes → List Bytes → Bytes
join sep [] = []
join sep (w ∷ []) = w
join sep (w ∷ v ∷ vs) = w ++ (sep ++ join sep (v ∷ vs))

pub split_absent : (c : ℕ) (a : Bytes) → contains a c ≡ false → split c a ≡ a ∷ []
unfolding split contains
split_absent c [] h = refl
split_absent c (x ∷ a) h = ground (arith, split_absent c a)

pub split-append :
    (c : ℕ) (a b : Bytes) → contains a c ≡ false → split c (a ++ c ∷ b) ≡ a ∷ split c b
unfolding split contains
split-append c [] b h = ground arith
split-append c (x ∷ a) b h = ground (arith, split-append c a b)

onto_first_cons :
    (x : ℕ) (ws : List Bytes) → (w : Bytes) × (vs : List Bytes) × (onto_first x ws ≡ w ∷ vs)
unfolding onto_first
onto_first_cons x [] = (x ∷ [], [], refl)
onto_first_cons x (w ∷ ws) = (x ∷ w, ws, refl)

-- `split` never gives the empty list.
pub split_cons : (c : ℕ) (s : Bytes) → (w : Bytes) × (ws : List Bytes) × (split c s ≡ w ∷ ws)
unfolding split
split_cons c [] = ([], [], refl)
split_cons c (x ∷ s) = elim (Bool-cases (x == c)) [
  | inl e ↦ ([], split c s, rw e)
  | inr e ↦ let (w, ws, p) = onto_first_cons x (split c s) in (w, ws, rw (e, split) p)
]

pub contains-append :
    (a b : Bytes) (c : ℕ)
    → contains a c ≡ false
    → contains b c ≡ false
    → contains (a ++ b) c ≡ false
unfolding contains
contains-append [] b c h k = k
contains-append (x ∷ a) b c h k = ground (arith, contains-append a b c)

pub ends_in_absent : (s : Bytes) (c : ℕ) → contains s c ≡ false → ends_in s c ≡ false
unfolding contains ends_in
ends_in_absent [] c h = refl
ends_in_absent (x ∷ []) c h = ground arith
ends_in_absent (x ∷ y ∷ s) c h = ground (arith, ends_in_absent (y ∷ s) c)

pub contains-append_cons :
    (a : Bytes) (x : ℕ) (b : Bytes) (c : ℕ)
    → contains a c ≡ false
    → (x == c) ≡ false
    → contains b c ≡ false
    → contains (a ++ x ∷ b) c ≡ false
unfolding contains
contains-append_cons [] x b c h e k = rw (e, k)
contains-append_cons (y ∷ a) x b c h e k = ground (arith, contains-append_cons a x b c)

-- ASCII white space; the further spaces of Unicode are left out.
unfoldable pub is_space : ℕ → Bool
is_space c = c == b' ' || (leb 9 c && leb c 13)

unfoldable pub trim_left : Bytes → Bytes
unfolding is_space
trim_left [] = []
trim_left (c ∷ s) = let rest = trim_left s in if is_space c then rest else c ∷ s

-- `strings.TrimSpace`
unfoldable pub trim_space : Bytes → Bytes
unfolding trim_left
trim_space s = reverse (trim_left (reverse (trim_left s)))
