-- ===== src/Client/Values.antt =====
-- httpclient/value.go: the values of the client's flags. What the joe-cli package splits, it splits by
-- a parameter.
pub mod Laws
use joe_cli_http.Prelude.{
  ℕ, Bool, true, false, ◌||◌, List, [], ◌∷◌, ◌++◌, Option, none, some, ◌==◌, ◌+◌, if◌then◌else◌,
  Bytes, drop,
}
use joe_cli_http.Prelude.Text.{codes, has_prefix, cut, trim_space}

-- `UserInfo`
pub record UserInfo : Type 0 where
  pub user : Bytes
  pub password : Bytes
  pub has_password : Bool

-- `UserInfo.Set`
unfoldable pub set_user_info : Bytes → UserInfo
set_user_info arg =
    let (user, password, found) = cut b':' arg in
    record { user = user; password = password; has_password = found }

-- `UserInfo.String`
unfoldable pub show_user_info : UserInfo → Bytes
show_user_info u = if u.has_password then u.user ++ b':' ∷ u.password else u.user

abbrev pub schemes : List Bytes
schemes =
    codes "http:"
    ∷ codes "https:"
    ∷ codes "file:"
    ∷ codes "unix:"
    ∷ codes "ssh:"
    ∷ codes "ftp:"
    ∷ []

-- The loop over the schemes, and `looksLikeURLPattern`
unfoldable pub has_scheme : List Bytes → Bytes → Bool
has_scheme [] addr = false
has_scheme (s ∷ ss) addr = has_prefix addr s || has_scheme ss addr

-- `fixupAddress` behind its first test
unfoldable pub fixup_host : Bytes → Bytes
unfolding has_scheme
fixup_host [] = []
fixup_host (c ∷ s) =
    if has_prefix (c ∷ s) (codes "/")
    then c ∷ s
    else if has_scheme schemes (c ∷ s)
    then c ∷ s
    else codes "http://" ++ c ∷ s

-- `fixupAddress`
unfoldable pub fixup_address : Bytes → Bytes
unfolding fixup_host
fixup_address addr =
    fixup_host (if has_prefix addr (codes ":") then codes "http://localhost" ++ addr else addr)

-- `unescapeKey`: each backslash before an equals sign goes.
unfoldable pub unescape_key : Bytes → Bytes
unescape_key [] = []
unescape_key (c ∷ []) = c ∷ []
unescape_key (c ∷ d ∷ s) =
    let rest = unescape_key s in
    let kept = c ∷ unescape_key (d ∷ s) in
    if c == 0x5C then if d == b'=' then b'=' ∷ rest else kept else kept

-- The value behind the separator, if `cli.SplitList` found two pieces.
abbrev second : List Bytes → Option (Bytes × Bytes)
second (k ∷ v ∷ []) = some (k, v)
second _ = none

-- `a[0]`, which panics if there is none.
abbrev first : List Bytes → Option Bytes
first [] = none
first (k ∷ vs) = some k

-- `splitValuePair`; `none` is a panic. The parameter is `cli.SplitList` at most at two pieces.
unfoldable pub split_value_pair :
    (Bytes → Bytes → List Bytes) → Bytes → Option (Bytes × Bytes × Bool)
unfolding unescape_key
split_value_pair split_list arg = elim (second (split_list arg (codes "="))) [
  | some (k, v) ↦ some (unescape_key k, trim_space v, true)
  | none ↦ elim (second (split_list arg (codes ":"))) [
    | some (k, v) ↦ some (k, trim_space v, true)
    | none ↦ elim (first (split_list arg (codes ":"))) [
      | some k ↦ some (k, [], false)
      | none ↦ none
    ]
  ]
]

-- `HeaderValue`
pub record HeaderValue : Type 0 where
  pub name : Bytes
  pub value : Bytes

-- `HeaderValue.Set`
unfoldable pub set_header_value :
    (Bytes → Bytes → List Bytes) → HeaderValue → Bytes → Option HeaderValue
set_header_value split_list h arg = elim h.name [
  | [] ↦ elim (split_value_pair split_list arg) [
    | none ↦ none
    | some (k, v, found) ↦ some (record { name = k; value = v })
  ]
  | c ∷ s ↦ some (record h { value = h.value ++ arg })
]

-- What `Take` and `Done` of the counter return: `cli.EndOfArguments`, or an error.
pub data Stop : Type 0 where
  end_of_arguments too_many missing : Stop

-- `headerValueCounter.Take`; the test is whether the argument has a value.
unfoldable pub count_take : (Bytes → Bool) → ℕ → Bytes → ℕ × Option Stop
count_take has_value count arg =
    if count == 0
    then (if has_value arg then (count + 2, none) else (count + 1, none))
    else if count == 1
    then (count + 1, none)
    else if count == 2
    then (count + 1, some end_of_arguments)
    else (count, some too_many)

-- `headerValueCounter.Done`
unfoldable pub count_done : ℕ → Option Stop
count_done count = if count == 0 then some missing else none

-- `VirtualPath`
pub record VirtualPath : Type 0 where
  pub request_path : Bytes
  pub physical_path : Bytes
  pub options : List (Bytes × Bytes)

abbrev pub or_dot : Bytes → Bytes
or_dot [] = codes "."
or_dot (c ∷ s) = c ∷ s

-- The two tests on the request path
unfoldable pub fixup_request : Bytes → Bytes
fixup_request r =
    let stripped = (if has_prefix r (codes "./") then b'/' ∷ drop 2 r else r) in
    if has_prefix stripped (codes "/") then stripped else b'/' ∷ stripped

-- `ParseVirtualPath`; the parameter is `cli.SplitMap`.
unfoldable pub parse_virtual_path : (Bytes → List (Bytes × Bytes)) → Bytes → VirtualPath
unfolding fixup_request
parse_virtual_path split_map v =
    let (r, path_and_options, found) = cut b':' v in
    let (s, opts, more) = cut b',' path_and_options in
    record {
      request_path = fixup_request r;
      physical_path = if found then or_dot s else r;
      options = split_map opts;
    }

-- `VirtualPath.String`; the parameter is `provider.Value.String`.
unfoldable pub show_virtual_path : (Bytes → List (Bytes × Bytes) → Bytes) → VirtualPath → Bytes
show_virtual_path show_value v =
    let name = v.request_path ++ b':' ∷ v.physical_path in
    elim v.options [ [] ↦ name | o ∷ os ↦ show_value name (o ∷ os) ]
