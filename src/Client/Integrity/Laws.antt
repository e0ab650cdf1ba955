-- ===== src/Client/Integrity/Laws.antt =====
-- What a parsed integrity is, and what a closed download has been checked for.
use joe_cli_http.Prelude.{
  ℕ, Bool, true, false, Option, none, take, ◌==◌, List, [], ◌∷◌, ◌++◌, some, length, ltb,
  if◌then◌else◌, Bytes, ok, ◌+◌, ◌-◌, ◌*◌, ◌/◌, ◌%◌, ◌<◌, ◌≡◌, refl, ap, ◌∙◌, arith, All,
  append-nil, append_assoc, ◌↔◌, ==_iff,
}
use joe_cli_http.Prelude.Text.{codes, equal_iff, cut-append, contains}
use joe_cli_http.Client.Integrity.{
  Hash, md5, ripemd160, sha1, sha224, sha256, sha384, sha512, sha512_224, sha512_256, Integrity,
  parse_hash, size, hex_value, decode_hex, check_length, parse_integrity, Answer, Checker,
  new_checker, write_checked, write_all, close_checker,
}

-- The name that the program's documentation gives an algorithm.
abbrev pub hash_name : Hash → Bytes
hash_name md5 = codes "md5"
hash_name ripemd160 = codes "ripemd160"
hash_name sha1 = codes "sha1"
hash_name sha224 = codes "sha224"
hash_name sha256 = codes "sha256"
hash_name sha384 = codes "sha384"
hash_name sha512 = codes "sha512"
hash_name sha512_224 = codes "sha512-224"
hash_name sha512_256 = codes "sha512-256"

abbrev pub hex_char : ℕ → ℕ
hex_char n = if ltb n 10 then b'0' + n else b'a' + n - 10

abbrev pub show_hex : Bytes → Bytes
show_hex [] = []
show_hex (b ∷ s) = hex_char (b / 16) ∷ hex_char (b % 16) ∷ show_hex s

abbrev pub show_integrity : Integrity → Bytes
show_integrity i = hash_name i.hash ++ b':' ∷ show_hex i.digest

hex_value-hex_char : (n : ℕ) → n < 16 → hex_value (hex_char n) ≡ some n
unfolding hex_value
hex_value-hex_char n h = ground arith

decode_hex_cons :
    (c d h l : ℕ) (s r : Bytes)
    → hex_value c ≡ some h
    → hex_value d ≡ some l
    → decode_hex s ≡ ok r
    → decode_hex (c ∷ d ∷ s) ≡ ok ((h * 16 + l) ∷ r)
unfolding decode_hex
decode_hex_cons c d h l s r p q e = rw (p, decode_hex) (rw (q, decode_hex) (rw e))

decode_hex-show_hex : (s : Bytes) → All (λ b. b < 256) s → decode_hex (show_hex s) ≡ ok s
unfolding decode_hex
decode_hex-show_hex [] h = refl
decode_hex-show_hex (b ∷ s) (hb, hs) =
    decode_hex_cons _ _ (b / 16) (b % 16) (show_hex s) s (hex_value-hex_char (b / 16) (omega arith))
      (hex_value-hex_char (b % 16) (omega arith)) (decode_hex-show_hex s hs)
    ∙ ap (λ n. ok (n ∷ s)) (omega arith)

hash_name-no_colon : (h : Hash) → contains (hash_name h) b':' ≡ false
unfolding contains
hash_name-no_colon md5 = refl
hash_name-no_colon _ = refl

parse_hash-hash_name : (h : Hash) → parse_hash (hash_name h) ≡ ok h
unfolding parse_hash
parse_hash-hash_name md5 = refl
parse_hash-hash_name _ = refl

-- An integrity whose digest has its algorithm's length is read back from the algorithm's name, a
-- colon and the digest in hex.
pub parse_integrity-show_integrity :
    (i : Integrity)
    → length i.digest ≡ size i.hash
    → All (λ b. b < 256) i.digest
    → parse_integrity (show_integrity i) ≡ ok i
unfolding parse_integrity check_length
parse_integrity-show_integrity i h b =
    rw
      (
        cut-append b':' (hash_name i.hash) (show_hex i.digest) (hash_name-no_colon i.hash),
        parse_hash-hash_name i.hash,
        decode_hex-show_hex i.digest b,
      )
      (rw ((==_iff _ _).1 h))

-- A write that succeeds: the output has no error and takes all.
abbrev pub is_accepted : Bytes × Answer → Bool
is_accepted (buf, a) = elim a.failure [ some e ↦ false | none ↦ a.count == length buf ]

-- What was written successfully, in one piece.
abbrev pub accepted : List (Bytes × Answer) → Bytes
accepted [] = []
accepted (w ∷ ws) = if is_accepted w then w.0 ++ accepted ws else accepted ws

-- What the output took.
abbrev pub taken : List (Bytes × Answer) → Bytes
taken [] = []
taken (w ∷ ws) = take w.1.count w.0 ++ taken ws

accept-append :
    (b : Bool) (h buf rest : Bytes)
    → (if b then h ++ buf else h) ++ rest ≡ h ++ (if b then buf ++ rest else rest)
accept-append true h buf rest = append_assoc h buf rest
accept-append false h buf rest = refl

write_checked_lem :
    (c : Checker) (buf : Bytes) (a : Answer)
    → let r = write_checked c buf a in
      (r.0.output ≡ c.output ++ take a.count buf)
      × (r.0.hashed ≡ (if is_accepted (buf, a) then c.hashed ++ buf else c.hashed))
      × (r.0.expected_hash ≡ c.expected_hash)
      × (r.0.closed ≡ c.closed)
unfolding write_checked
write_checked_lem c buf a = ground arith

write_all_lem :
    (c : Checker) (ws : List (Bytes × Answer))
    → ((write_all c ws).output ≡ c.output ++ taken ws)
      × ((write_all c ws).hashed ≡ c.hashed ++ accepted ws)
      × ((write_all c ws).expected_hash ≡ c.expected_hash)
      × ((write_all c ws).closed ≡ c.closed)
unfolding write_all
write_all_lem c [] = (simp append-nil, simp append-nil, refl, refl)
write_all_lem c ((buf, a) ∷ ws) =
    let d = (write_checked c buf a).0 in
    let (o, h, e, k) = write_checked_lem c buf a in
    let (os, hs, es, ks) = write_all_lem d ws in
    (
      os
          ∙ ap (λ (x : Bytes). x ++ taken ws) o
          ∙ append_assoc c.output (take a.count buf) (taken ws),
      hs
          ∙ ap (λ (x : Bytes). x ++ accepted ws) h
          ∙ accept-append (is_accepted (buf, a)) c.hashed buf (accepted ws),
      es ∙ e,
      ks ∙ k,
    )

-- However a download is written, and whatever the output answers, closing it returns no error exactly
-- if the hash of what was written successfully is the expected one and the output closes without an
-- error; the output is closed exactly if the hash is the expected one, and holds what it took of each
-- write.
pub close_checker_lem :
    (sum : Bytes → Bytes) (expected : Bytes) (ws : List (Bytes × Answer)) (closing : Option Bytes)
    → let r = close_checker sum closing (write_all (new_checker expected) ws) in
      ((r.1 ≡ none) ↔ ((expected ≡ sum (accepted ws)) × (closing ≡ none)))
      × ((r.0.closed ≡ true) ↔ (expected ≡ sum (accepted ws)))
      × (r.0.output ≡ taken ws)
unfolding close_checker new_checker
close_checker_lem sum expected ws closing =
    let (o, h, e, k) = write_all_lem (new_checker expected) ws in
    (
      ground (arith, equal_iff expected (sum (accepted ws))),
      ground (arith, equal_iff expected (sum (accepted ws))),
      ground (arith, equal_iff expected (sum (accepted ws))),
    )
