-- ===== src/Tls.antt =====
-- tls/cipher_suites.go and tls/tls.go: the lists of cipher suites and curves, and the options of the
-- configuration. What `crypto/tls` and the file system give is in `Library`.
pub mod Curves
mod Tests
use joe_cli_http.Prelude.{
  ℕ, Bool, List, [], ◌∷◌, ◌++◌, Option, none, some, ◌==◌, ◌+◌, if◌then◌else◌, Bytes, Outcome, ok,
  err, ◌>>=◌,
}
use joe_cli_http.Prelude.Text.{codes, equal, join, split}

-- `tls.CipherSuites` and `tls.InsecureCipherSuites` by name, `tls.CipherSuiteName`, `ParseUint` in base
-- 16 at 16 bits, and the reads of files; a certificate is its text.
pub record Library : Type 0 where
  pub cipher_suites : List (Bytes × ℕ)
  pub insecure_cipher_suites : List (Bytes × ℕ)
  pub cipher_suite_name : ℕ → Bytes
  pub parse_hex : Bytes → Option ℕ
  pub read_file : Bytes → Option Bytes
  pub load_pair : Bytes → Bytes → Option Bytes
  pub glob : Bytes → Option (List Bytes)

pub data Error : Type 0 where
  unknown_curve bad_suite : Bytes → Error
  unreadable : Error

-- `curves` beside `curveNames`, with the numbers of `crypto/tls`
abbrev pub curves : List (Bytes × ℕ)
curves = (codes "P256", 23) ∷ (codes "P384", 24) ∷ (codes "P521", 25) ∷ (codes "X25519", 29) ∷ []

-- The loops of `curve` and `cipherSuite` over a table
unfoldable pub find_id : List (Bytes × ℕ) → Bytes → Option ℕ
unfolding equal
find_id [] name = none
find_id ((n, i) ∷ table) name = if equal name n then some i else find_id table name

-- The loop of `curveName`
unfoldable pub find_name : List (Bytes × ℕ) → ℕ → Bytes
find_name [] id = []
find_name ((n, i) ∷ table) id = if id == i then n else find_name table id

-- `curve`
unfoldable pub curve : Bytes → Outcome Error ℕ
unfolding find_id
curve name = elim (find_id curves name) [ some i ↦ ok i | none ↦ err (unknown_curve name) ]

-- `curveName`
unfoldable pub curve_name : ℕ → Bytes
unfolding find_name
curve_name = find_name curves

unfoldable pub or_suite : Option ℕ → Option ℕ → Option ℕ
or_suite none o = o
or_suite (some i) o = some i

-- `cipherSuite`
unfoldable pub cipher_suite : Library → Bytes → Outcome Error ℕ
unfolding find_id or_suite
cipher_suite lib name =
    elim (or_suite (find_id lib.cipher_suites name)
      (or_suite (find_id lib.insecure_cipher_suites name) (lib.parse_hex name))) [
        | some i ↦ ok i
        | none ↦ err (bad_suite name)
      ]

-- The loop of `Set` over the names
unfoldable pub append_ids : (Bytes → Outcome Error ℕ) → List ℕ → List Bytes → Outcome Error (List ℕ)
append_ids look items [] = ok items
append_ids look items (name ∷ names) = do id ← look name; append_ids look (items ++ id ∷ []) names

-- `CurveIDs.Set`
unfoldable pub set_curves : List ℕ → Bytes → Outcome Error (List ℕ)
unfolding append_ids curve
set_curves c arg = append_ids curve c (split b',' arg)

-- `CipherSuites.Set`
unfoldable pub set_cipher_suites : Library → List ℕ → Bytes → Outcome Error (List ℕ)
unfolding append_ids cipher_suite
set_cipher_suites lib c arg = append_ids (cipher_suite lib) c (split b',' arg)

-- The loops of the two `String` methods
unfoldable pub id_names : (ℕ → Bytes) → List ℕ → List Bytes
id_names name [] = []
id_names name (id ∷ ids) = name id ∷ id_names name ids

-- `CurveIDs.String`
unfoldable pub show_curves : List ℕ → Bytes
unfolding id_names curve_name join
show_curves c = join (codes ",") (id_names curve_name c)

-- `CipherSuites.String`
unfoldable pub show_cipher_suites : Library → List ℕ → Bytes
unfolding id_names join
show_cipher_suites lib c = join (codes ",") (id_names lib.cipher_suite_name c)

-- `Config`, as far as its options write it. `root_cas` is nil or a pool.
pub record Config : Type 0 where
  pub insecure_skip_verify : Bool
  pub suites : List ℕ
  pub curve_preferences : List ℕ
  pub server_name : Bytes
  pub next_protos : List Bytes
  pub certificates : List Bytes
  pub root_cas : Option (List Bytes)

-- An `Option`: the configuration that it leaves, and its error.
abbrev pub TlsOption : Type 0
TlsOption = Config → Config × Option Error

-- `WithInsecureSkipVerify`
unfoldable pub with_insecure_skip_verify : Bool → TlsOption
with_insecure_skip_verify v c = (record c { insecure_skip_verify = v }, none)

-- `WithCiphers`
unfoldable pub with_ciphers : List ℕ → TlsOption
with_ciphers ids c = (record c { suites = ids }, none)

-- `WithCurves`
unfoldable pub with_curves : List ℕ → TlsOption
with_curves ids c = (record c { curve_preferences = ids }, none)

-- `WithServerName`
unfoldable pub with_server_name : Bytes → TlsOption
with_server_name s c = (record c { server_name = s }, none)

-- `WithNextProtos`
unfoldable pub with_next_protos : List Bytes → TlsOption
with_next_protos s c = (record c { next_protos = s }, none)

-- `AddCertificate`
unfoldable pub add_certificate : Bytes → TlsOption
add_certificate cert c = (record c { certificates = c.certificates ++ cert ∷ [] }, none)

-- `AddX509KeyPair`
unfoldable pub add_x509_key_pair : Library → Bytes → Bytes → TlsOption
unfolding add_certificate
add_x509_key_pair lib cert_file key_file c = elim (lib.load_pair cert_file key_file) [
  | none ↦ (c, some unreadable)
  | some cert ↦ add_certificate cert c
]

-- `ensureCACertPool`
unfoldable pub ensure_pool : Config → List Bytes
ensure_pool c = elim c.root_cas [ none ↦ [] | some pool ↦ pool ]

-- `AddRootCACertFile`
unfoldable pub add_root_ca_cert_file : Library → Bytes → TlsOption
unfolding ensure_pool
add_root_ca_cert_file lib filename c = elim (lib.read_file filename) [
  | none ↦ (c, some unreadable)
  | some cert ↦ (record c { root_cas = some (ensure_pool c ++ cert ∷ []) }, none)
]

-- The loop of `AddRootCACertPath`, which drops the errors
unfoldable pub add_files : Library → List Bytes → Config → Config
unfolding add_root_ca_cert_file
add_files lib [] c = c
add_files lib (p ∷ ps) c = add_files lib ps (add_root_ca_cert_file lib p c).0

-- `AddRootCACertPath`, which never looks at its path
unfoldable pub add_root_ca_cert_path : Library → Bytes → TlsOption
unfolding add_files
add_root_ca_cert_path lib path c = elim (lib.glob (codes "*.pem")) [
  | none ↦ (c, some unreadable)
  | some paths ↦ (add_files lib paths c, none)
]

-- `Apply`, which drops the errors
unfoldable pub apply : Config → List TlsOption → Config
apply c [] = c
apply c (o ∷ os) = apply (o c).0 os
