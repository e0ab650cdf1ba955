-- ===== src/Prelude/Decimal.antt =====
-- What the program uses of Go's `strconv`: `Itoa`, and `ParseInt` in base 10 at 64 bits.
use Prim.Native.Nat.{ℕ, zero, suc, ◌+◌, ◌-◌, ◌*◌, ◌/◌, ◌%◌, ◌≤◌, ◌<◌}
use mathlib.Core.Path.{◌≡◌, refl, ◌∙◌}
use mathlib.Core.Logic.{inl, inr}
use mathlib.Core.Bool.{Bool, true, false, not, ◌&&◌}
use mathlib.Core.Option.{Option, none, some}
use mathlib.Core.List.{[], ◌∷◌}
use native.Mathlib.Omega.{arith}
use joe_cli_http.Prelude.Tests.{◌==◌, leb, ltb, if◌then◌else◌, Bool-cases}
use joe_cli_http.Prelude.Lists.{Bytes}
use joe_cli_http.Prelude.Text.{contains}

-- A Go `int`; `negsuc n` is -(n + 1).
pub data ℤ : Type 0 where
  pos : ℕ → ℤ
  negsuc : ℕ → ℤ

-- `*strconv.NumError`
pub data NumError : Type 0 where
  bad_syntax out_of_range : NumError

unfoldable pub is_digit : ℕ → Bool
is_digit c = leb b'0' c && leb c b'9'

abbrev pub max_uint64 : ℕ
max_uint64 = 0xffffffffffffffff

abbrev pub max_int64 : ℕ
max_int64 = 0x7fffffffffffffff

-- `ParseUint` stops at the first digit that passes 64 bits, and at the first byte that is none.
unfoldable pub scan : ℕ → Bytes → ℕ × Option NumError
unfolding is_digit
scan n [] = (n, none)
scan n (c ∷ s) =
    let m = n * 10 + (c - b'0') in
    let rest = scan m s in
    if not (is_digit c)
    then (0, some bad_syntax)
    else if ltb max_uint64 m
    then (max_uint64, some out_of_range)
    else rest

unfoldable pub parse_uint : Bytes → ℕ × Option NumError
unfolding scan
parse_uint [] = (0, some bad_syntax)
parse_uint (c ∷ s) = scan 0 (c ∷ s)

-- The minus sign gives the value below zero; a value out of range is clamped.
unfoldable pub signed : Bool → ℕ × Option NumError → ℤ × Option NumError
signed neg (n, some bad_syntax) = (pos 0, some bad_syntax)
signed true (n, _) =
    if ltb (max_int64 + 1) n
    then (negsuc max_int64, some out_of_range)
    else if n == 0
    then (pos 0, none)
    else (negsuc (n - 1), none)
signed false (n, _) = if ltb max_int64 n then (pos max_int64, some out_of_range) else (pos n, none)

unfoldable pub parse_int : Bytes → ℤ × Option NumError
unfolding parse_uint signed
parse_int [] = (pos 0, some bad_syntax)
parse_int (c ∷ s) =
    if c == b'-'
    then signed true (parse_uint s)
    else if c == b'+'
    then signed false (parse_uint s)
    else signed false (parse_uint (c ∷ s))

-- The digits of `n` in front of `s`. The fuel is one more than `n`, which no chain of divisions by
-- ten uses up.
digits_onto : ℕ → ℕ → Bytes → Bytes
digits_onto zero n s = s
digits_onto (suc f) n s =
    let c = b'0' + n % 10 in
    let rest = digits_onto f (n / 10) (c ∷ s) in if ltb n 10 then c ∷ s else rest

-- `strconv.Itoa` of a number that is not negative.
unfoldable pub show_nat : ℕ → Bytes
unfolding digits_onto
show_nat n = digits_onto (suc n) n []

-- `Itoa`
unfoldable pub show_int : ℤ → Bytes
unfolding show_nat
show_int (pos n) = show_nat n
show_int (negsuc n) = b'-' ∷ show_nat (suc n)

abbrev IsDigits : Bytes → Type 0
IsDigits [] = Unit
IsDigits (c ∷ s) = (is_digit c ≡ true) × IsDigits s

digits_onto-scan :
    (f n : ℕ) (s : Bytes) → n < f → n ≤ max_int64 → scan 0 (digits_onto f n s) ≡ scan n s
unfolding digits_onto
digits_onto-scan zero n s h b = elim h [ ]
digits_onto-scan (suc f) n s h b = elim (Bool-cases (ltb n 10)) [
  | inl low ↦ rw low (unfold scan in ground arith)
  | inr high ↦
      rw high
        (digits_onto-scan f (n / 10) _ (ground arith) (omega arith) ∙ unfold scan in ground arith)
]

digits_onto-IsDigits : (f n : ℕ) (s : Bytes) → IsDigits s → IsDigits (digits_onto f n s)
unfolding digits_onto
digits_onto-IsDigits zero n s h = h
digits_onto-IsDigits (suc f) n s h =
    let d : is_digit (b'0' + n % 10) ≡ true = unfold is_digit in ground arith in
    elim (Bool-cases (ltb n 10)) [
      | inl low ↦ rw low (d, h)
      | inr high ↦ rw high (digits_onto-IsDigits f (n / 10) _ (d, h))
    ]

pub show_nat-IsDigits : (n : ℕ) → IsDigits (show_nat n)
unfolding show_nat
show_nat-IsDigits n = digits_onto-IsDigits (suc n) n [] tt

digits_onto_cons :
    (f n : ℕ) (s : Bytes) → n < f → (c : ℕ) × (t : Bytes) × (digits_onto f n s ≡ c ∷ t)
unfolding digits_onto
digits_onto_cons zero n s h = elim h [ ]
digits_onto_cons (suc f) n s h = elim (Bool-cases (ltb n 10)) [
  | inl low ↦ (b'0' + n % 10, s, rw low)
  | inr high ↦ rw high (digits_onto_cons f (n / 10) _ (ground arith))
]

parse_int-digits :
    (c : ℕ) (s : Bytes) → is_digit c ≡ true → parse_int (c ∷ s) ≡ signed false (scan 0 (c ∷ s))
unfolding parse_int is_digit
parse_int-digits c s h = ground arith

-- A number that fits 64 bits is read back from its digits.
pub parse_int-show_nat : (n : ℕ) → n ≤ max_int64 → parse_int (show_nat n) ≡ (pos n, none)
unfolding show_nat
parse_int-show_nat n b =
    let (c, t, e) = digits_onto_cons (suc n) n [] (omega arith) in
    let ds : IsDigits (c ∷ t) = rw e at (digits_onto-IsDigits (suc n) n [] tt) in
    rw (e, parse_int-digits c t ds.0, ← e, digits_onto-scan (suc n) n [] (omega arith) b)
      (unfold scan signed in ground arith)

IsDigits-contains : (s : Bytes) (c : ℕ) → is_digit c ≡ false → IsDigits s → contains s c ≡ false
unfolding contains is_digit
IsDigits-contains [] c h d = refl
IsDigits-contains (x ∷ s) c h d = ground (arith, IsDigits-contains s c h d.1)

pub show_nat-contains : (n c : ℕ) → is_digit c ≡ false → contains (show_nat n) c ≡ false
show_nat-contains n c h = IsDigits-contains (show_nat n) c h (show_nat-IsDigits n)
