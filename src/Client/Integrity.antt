-- ===== src/Client/Integrity.antt =====
-- httpclient/integrity.go: `ParseIntegrity`, and the writer that checks a download's hash. The hash
-- functions and the output are not the program's: `Close` is given the function, and each call of the
-- output its answer.
pub mod Laws
use joe_cli_http.Prelude.{
  ℕ, Bool, true, false, not, ◌&&◌, List, [], ◌∷◌, ◌++◌, Option, none, some, length, take, leb, ◌==◌,
  if◌then◌else◌, Bytes, Outcome, ok, err, ◌>>=◌, ◌+◌, ◌-◌, ◌*◌,
}
use joe_cli_http.Prelude.Text.{codes, cut, equal}

-- `crypto.Hash`
pub data Hash : Type 0 where
  md5 ripemd160 sha1 sha224 sha256 sha384 sha512 sha512_224 sha512_256 : Hash

pub record Integrity : Type 0 where
  pub hash : Hash
  pub digest : Bytes

pub data Error : Type 0 where
  no_colon bad_length : Error
  unknown_algorithm : Bytes → Error
  bad_hex : Error

-- `parseHash`
unfoldable pub parse_hash : Bytes → Outcome Error Hash
unfolding equal
parse_hash name =
    if equal name (codes "md5")
    then ok md5
    else if equal name (codes "ripemd160")
    then ok ripemd160
    else if equal name (codes "sha1")
    then ok sha1
    else if equal name (codes "sha224")
    then ok sha224
    else if equal name (codes "sha256")
    then ok sha256
    else if equal name (codes "sha384")
    then ok sha384
    else if equal name (codes "sha512")
    then ok sha512
    else if equal name (codes "sha512-224")
    then ok sha512_224
    else if equal name (codes "sha512-256")
    then ok sha512_256
    else err (unknown_algorithm name)

-- `Hash.Size`
abbrev pub size : Hash → ℕ
size md5 = 16
size ripemd160 = 20
size sha1 = 20
size sha224 = 28
size sha256 = 32
size sha384 = 48
size sha512 = 64
size sha512_224 = 28
size sha512_256 = 32

-- The value of a hex digit, in either case.
unfoldable pub hex_value : ℕ → Option ℕ
hex_value c =
    if leb b'0' c && leb c b'9'
    then some (c - b'0')
    else if leb b'a' c && leb c b'f'
    then some (c - b'a' + 10)
    else if leb b'A' c && leb c b'F'
    then some (c - b'A' + 10)
    else none

-- `hex.DecodeString`; an odd length is an error too.
unfoldable pub decode_hex : Bytes → Outcome Error Bytes
decode_hex [] = ok []
decode_hex (c ∷ []) = err bad_hex
decode_hex (c ∷ d ∷ s) = elim (hex_value c) [
  | none ↦ err bad_hex
  | some h ↦ elim (hex_value d) [
    | none ↦ err bad_hex
    | some l ↦ do rest ← decode_hex s; ok ((h * 16 + l) ∷ rest)
  ]
]

unfoldable pub check_length : Hash → Bytes → Outcome Error Integrity
check_length h d =
    if not (length d == size h) then err bad_length else ok (record { hash = h; digest = d })

-- `ParseIntegrity`
unfoldable pub parse_integrity : Bytes → Outcome Error Integrity
parse_integrity s =
    let (name, digest, found) = cut b':' s in
    if not found
    then err no_colon
    else (do h ← parse_hash name; d ← decode_hex digest; check_length h d)

-- What the output answers to a write: how many bytes it took, and the text of its error.
pub record Answer : Type 0 where
  pub count : ℕ
  pub failure : Option Bytes

-- What a method of the checker returns: an error of the output, `io.ErrShortWrite`, or the mismatch.
pub data CheckError : Type 0 where
  output_failed : Bytes → CheckError
  short_write mismatch : CheckError

-- `integrityChecker`: what was written to the output and to the hash, and whether `Close` of the
-- output was called.
pub record Checker : Type 0 where
  pub output : Bytes
  pub hashed : Bytes
  pub expected_hash : Bytes
  pub closed : Bool

-- `newIntegrityChecker`
unfoldable pub new_checker : Bytes → Checker
new_checker expected = record { output = []; hashed = []; expected_hash = expected; closed = false }

-- `Write`, of the embedded `io.MultiWriter`: to the output, and then to the hash, which never fails,
-- unless the output has an error or took too little.
unfoldable pub write_checked : Checker → Bytes → Answer → Checker × Option CheckError
write_checked c buf a =
    let d = record c { output = c.output ++ take a.count buf } in
    elim a.failure [
      | some e ↦ (d, some (output_failed e))
      | none ↦
          if not (a.count == length buf)
          then (d, some short_write)
          else (record d { hashed = c.hashed ++ buf }, none)
    ]

-- Any writes, one after another, also behind one that failed
unfoldable pub write_all : Checker → List (Bytes × Answer) → Checker
write_all c [] = c
write_all c ((buf, a) ∷ ws) = write_all (write_checked c buf a).0 ws

-- `Close`, with the hash function and what `Close` of the output returns: on a mismatch the output is
-- left open.
unfoldable pub close_checker :
    (Bytes → Bytes) → Option Bytes → Checker → Checker × Option CheckError
close_checker sum closing c =
    if not (equal c.expected_hash (sum c.hashed)) then (c, some mismatch) else (
      record c { closed = true },
      elim closing [ none ↦ none | some e ↦ some (output_failed e) ],
    )
