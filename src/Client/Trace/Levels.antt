-- ===== src/Client/Trace/Levels.antt =====
-- Levels as text.
use joe_cli_http.Prelude.{
  ℕ, zero, suc, Bool, true, false, ◌&&◌, Option, none, ◌==◌, ◌≡◌, ◌<◌, ◌≤◌, ◌+◌, ==_iff, Bool-cases,
  inl, inr, refl, arith, ap, Bytes, ◌∙◌,
}
use joe_cli_http.Client.Trace.{set_level, show_level, Error}

no_error : Option Error → Bool
no_error none = true
no_error _ = false

-- Whether a level is read back.
reads_back : ℕ → Bool
unfolding no_error
reads_back l = let r = set_level 0 (show_level l) in no_error r.1 && r.0 == l

-- Whether so many levels are read back, from `l` upwards.
read_back_from : ℕ → ℕ → Bool
read_back_from zero l = true
read_back_from (suc count) l = reads_back l && read_back_from count (l + 1)

reads_back_of :
    (count from l : ℕ)
    → read_back_from count from ≡ true
    → from ≤ l
    → l < from + count
    → reads_back l ≡ true
unfolding read_back_from
reads_back_of zero from l h low high = absurd (omega arith)
reads_back_of (suc count) from l h low high = elim (Bool-cases (from == l)) [
  | inl e ↦ ground (arith, ==_iff from l)
  | inr e ↦ ground (arith, reads_back_of count (from + 1) l)
]

table : read_back_from 512 0 ≡ true
unfolding read_back_from reads_back set_level show_level
table = refl

set_level-outcome :
    (k : ℕ) (arg : Bytes)
    → no_error (set_level 0 arg).1 ≡ true
    → set_level k arg ≡ ((set_level 0 arg).0, none)
unfolding set_level no_error
set_level-outcome k arg h = ground arith

reads_back_iff :
    (l : ℕ)
    → reads_back l ≡ true
    → (no_error (set_level 0 (show_level l)).1 ≡ true) × ((set_level 0 (show_level l)).0 ≡ l)
unfolding reads_back
reads_back_iff l h = ground arith

-- Every sum of the nine levels is read back as it was written, whatever the level was before.
pub set_level-show_level : (k l : ℕ) → l < 512 → set_level k (show_level l) ≡ (l, none)
set_level-show_level k l h =
    let (n, e) = reads_back_iff l (reads_back_of 512 0 l table (omega arith) (omega arith)) in
    set_level-outcome k (show_level l) n ∙ ap (λ m. (m, none)) e
