-- ===== src/Template/Escape/RoundTrip.antt =====
-- Percent decoding, as RFC 3986 has it, undoes `escape`.
use joe_cli_http.Prelude.{
  ℕ, ◌+◌, ◌-◌, ◌*◌, ◌/◌, ◌%◌, ◌<◌, Bool, true, false, ◌||◌, [], ◌∷◌, ◌++◌, ◌==◌, leb, if◌then◌else◌,
  Bytes, ◌≡◌, refl, ap, ◌∙◌, arith, All, All-append, Bool-cases, inl, inr,
}
use joe_cli_http.Template.Escape.{is_reserved, is_kept, hex_digit, pct_encode, escape}

abbrev pub hex_value : ℕ → ℕ
hex_value c = if leb c b'9' then c - b'0' else c - b'A' + 10

unfoldable pub unescape : Bytes → Bytes
unescape [] = []
unescape (x ∷ []) = x ∷ []
unescape (x ∷ y ∷ []) = x ∷ y ∷ []
unescape (x ∷ y ∷ z ∷ s) =
    let decoded = (hex_value y * 16 + hex_value z) ∷ unescape s in
    let kept = x ∷ unescape (y ∷ z ∷ s) in if x == 0x25 then decoded else kept

unescape_kept : (c : ℕ) (s : Bytes) → (c == 0x25) ≡ false → unescape (c ∷ s) ≡ c ∷ unescape s
unfolding unescape
unescape_kept c [] h = refl
unescape_kept c (x ∷ []) h = refl
unescape_kept c (x ∷ y ∷ s) h = rw h

hex_value-hex_digit : (n : ℕ) → n < 16 → hex_value (hex_digit n) ≡ n
unfolding hex_digit
hex_value-hex_digit n h = ground arith

unescape-pct_encode :
    (c : ℕ) (s : Bytes) → c < 256 → unescape (pct_encode (c ∷ []) ++ s) ≡ c ∷ unescape s
unfolding unescape pct_encode
unescape-pct_encode c s h =
    ap (λ n. n ∷ unescape s)
      (omega (
        arith,
        hex_value-hex_digit (c / 16) (omega arith),
        hex_value-hex_digit (c % 16) (omega arith),
      ))

kept-ne-percent : (a : Bool) (c : ℕ) → is_kept a c ≡ true → (c == 0x25) ≡ false
unfolding is_reserved
kept-ne-percent a c h = ground arith

-- Decoding an escaped string of bytes gives the string back, under either class of kept bytes.
pub unescape-escape : (s : Bytes) (a : Bool) → All (λ c. c < 256) s → unescape (escape s a) ≡ s
unfolding escape
unescape-escape [] a h = unfold unescape in refl
unescape-escape (c ∷ s) a (hc, hs) = elim (Bool-cases (is_kept a c)) [
  | inl kept ↦ rw kept (
      unescape_kept c (escape s a) (kept-ne-percent a c kept) ∙ ap (◌∷◌ c) (unescape-escape s a hs))
  | inr encoded ↦
      rw encoded (unescape-pct_encode c (escape s a) hc ∙ ap (◌∷◌ c) (unescape-escape s a hs))
]

-- What `escape` may write.
abbrev pub IsSafe : Bool → ℕ → Type 0
IsSafe a c = (is_kept a c || c == 0x25) ≡ true

hex_digit-IsSafe : (a : Bool) (n : ℕ) → n < 16 → IsSafe a (hex_digit n)
unfolding hex_digit is_reserved
hex_digit-IsSafe true n h = ground arith
hex_digit-IsSafe false n h = ground arith

pct_encode-IsSafe : (a : Bool) (c : ℕ) → c < 256 → All (IsSafe a) (pct_encode (c ∷ []))
unfolding pct_encode
pct_encode-IsSafe a c h = (
  ground arith,
  (hex_digit-IsSafe a (c / 16) (omega arith), (hex_digit-IsSafe a (c % 16) (omega arith), tt)),
)

-- An escaped string of bytes holds percent signs and bytes of the kept class, and nothing else.
pub escape-IsSafe : (s : Bytes) (a : Bool) → All (λ c. c < 256) s → All (IsSafe a) (escape s a)
unfolding escape
escape-IsSafe [] a h = tt
escape-IsSafe (c ∷ s) a (hc, hs) = elim (Bool-cases (is_kept a c)) [
  | inl kept ↦ rw kept (ground arith, escape-IsSafe s a hs)
  | inr encoded ↦ rw encoded (
      All-append (IsSafe a) (pct_encode (c ∷ [])) _ (pct_encode-IsSafe a c hc)
        (escape-IsSafe s a hs))
]
