-- ===== src/Client/Download/Names.antt =====
-- The directories that are stripped.
use joe_cli_http.Prelude.{
  ℕ, zero, suc, List, [], ◌∷◌, ◌-◌, ◌%◌, ◌≡◌, ◌<◌, refl, arith, ltb, length, drop, Bytes,
  Bool-cases, inl, inr, ltb→lt,
}
use native.Mathlib.Nat.{mod-eq_of_lt}
use joe_cli_http.Prelude.Decimal.{ℤ, pos, negsuc}
use joe_cli_http.Client.Download.{strip_dirs}

-- How many of `m` directories go: as many as a positive count says, and all but as many as a negative
-- one says.
abbrev pub dropped : ℤ → ℕ → ℕ
dropped (pos n) m = n
dropped (negsuc n) m = m - suc n

drop_beyond : (n : ℕ) (dirs : List Bytes) → length dirs < n → drop n dirs ≡ []
drop_beyond zero dirs h = absurd (omega arith)
drop_beyond (suc n) [] h = refl
drop_beyond (suc n) (d ∷ dirs) h = drop_beyond n dirs (omega arith)

-- Whatever the count, what is left is an end of the list: a positive count strips so many from its
-- front, all if there are fewer, and a negative count keeps so many at its end, all if there are fewer.
pub strip_dirs_lem :
    (count : ℤ) (dirs : List Bytes)
    → strip_dirs count dirs ≡ drop (dropped count (length dirs)) dirs
unfolding strip_dirs
strip_dirs_lem (pos n) dirs = ground (arith, drop_beyond n dirs)
strip_dirs_lem (negsuc n) dirs = elim (Bool-cases (ltb (length dirs) (suc n))) [
  | inl e ↦
      let none_left : length dirs - suc n ≡ 0 = omega (arith, ltb→lt (length dirs) (suc n) e) in
      rw (e, none_left) refl
  | inr e ↦
      let m : (length dirs - suc n) % length dirs ≡ length dirs - suc n =
        mod-eq_of_lt (ground arith) in
      rw (e, m) refl
]
