-- ===== src/Commands/Flags/Related.antt =====
-- Each flag that a flag of a command implies or requires is there.
use joe_cli_http.Prelude.{
  ℕ, zero, suc, Bool, true, false, ◌||◌, ◌&&◌, List, [], ◌∷◌, some, Bytes, get_elem?, ◌≡◌, refl,
  arith, inl, inr, Bool-cases,
}
use joe_cli_http.Prelude.Text.{equal, equal_iff}
use joe_cli_http.Commands.Flags.{Flag, related_names, has_name, answers_to}
use joe_cli_http.Commands.Flags.Apps.{App, wig, weave, rug, flags_of}

abbrev any_answers : List Flag → Bytes → Bool
any_answers [] n = false
any_answers (f ∷ fs) n = answers_to f n || any_answers fs n

abbrev all_answered : List Flag → List Bytes → Bool
all_answered fs [] = true
all_answered fs (n ∷ ns) = any_answers fs n && all_answered fs ns

abbrev all_related : List Flag → List Flag → Bool
all_related fs [] = true
all_related fs (f ∷ gs) = all_answered fs (related_names f) && all_related fs gs

app_related : (a : App) → all_related (flags_of a) (flags_of a) ≡ true
unfolding equal
app_related wig = refl
app_related weave = refl
app_related rug = refl

any_answers-get_elem? :
    (fs : List Flag) (n : Bytes)
    → any_answers fs n ≡ true
    → (j : ℕ) × (g : Flag) × (get_elem? fs j ≡ some g) × (answers_to g n ≡ true)
any_answers-get_elem? [] n h = cc
any_answers-get_elem? (f ∷ fs) n h = elim (Bool-cases (answers_to f n)) [
  | inl e ↦ (0, f, refl, e)
  | inr e ↦ let (j, g, k, p) = any_answers-get_elem? fs n (rw e at h) in (suc j, g, k, p)
]

answered-get_elem? :
    (fs : List Flag) (ns : List Bytes) (n : Bytes)
    → all_answered fs ns ≡ true
    → has_name n ns ≡ true
    → any_answers fs n ≡ true
answered-get_elem? fs [] n h k = cc
answered-get_elem? fs (m ∷ ns) n h k = ground (arith, equal_iff n m, answered-get_elem? fs ns n)

related-answered :
    (fs gs : List Flag) (i : ℕ) (f : Flag)
    → all_related fs gs ≡ true
    → get_elem? gs i ≡ some f
    → all_answered fs (related_names f) ≡ true
related-answered fs [] i f h e = cc
related-answered fs (g ∷ gs) zero f h e = ground (arith)
related-answered fs (g ∷ gs) (suc i) f h e = ground (arith, related-answered fs gs i f)

-- Whatever flag a flag of a command implies or requires by name, a flag of the same command answers to
-- that name.
pub flags_of-related :
    (a : App) (i : ℕ) (f : Flag) (n : Bytes)
    → get_elem? (flags_of a) i ≡ some f
    → has_name n (related_names f) ≡ true
    → (j : ℕ) × (g : Flag) × (get_elem? (flags_of a) j ≡ some g) × (answers_to g n ≡ true)
flags_of-related a i f n e h = any_answers-get_elem? (flags_of a) n (
    answered-get_elem? (flags_of a) (related_names f) n
      (related-answered (flags_of a) (flags_of a) i f (app_related a) e) h)
