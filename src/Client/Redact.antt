-- ===== src/Client/Redact.antt =====
-- httpclient/client.go: `redactHeader` and `redactGeneric`, which hide secrets in a trace. A header's
-- name is ASCII, as `net/http` demands, so that its case is folded byte by byte.
pub mod Hidden
use joe_cli_http.Prelude.{
  ℕ, Bool, ◌&&◌, ◌||◌, [], ◌∷◌, ◌++◌, ◌+◌, ◌-◌, leb, if◌then◌else◌, Bytes, length, take, drop,
  replicate,
}
use joe_cli_http.Prelude.Text.{codes, equal, cut, has_prefix}

unfoldable pub to_lower_byte : ℕ → ℕ
to_lower_byte c = if leb b'A' c && leb c b'Z' then c + 32 else c

-- `strings.ToLower`
unfoldable pub to_lower : Bytes → Bytes
unfolding to_lower_byte
to_lower [] = []
to_lower (c ∷ s) = to_lower_byte c ∷ to_lower s

-- `strings.Contains`
unfoldable pub contains_text : Bytes → Bytes → Bool
contains_text [] t = has_prefix [] t
contains_text (c ∷ s) t = has_prefix (c ∷ s) t || contains_text s t

-- `redactGeneric`
unfoldable pub redact_generic : Bytes → Bytes
redact_generic s =
    if leb (length s) 8
    then codes "********"
    else if leb (length s) 16
    then replicate (length s - 2) b'*' ++ drop (length s - 2) s
    else take 4 s ++ (replicate (length s - 6) b'*' ++ drop (length s - 2) s)

-- The case of `Authorization`: only two schemes are known.
unfoldable pub redact_authorization : Bytes → Bytes
unfolding equal
redact_authorization s =
    let (h, r, found) = cut b' ' s in
    if equal h (codes "Bearer")
    then codes "Bearer " ++ redact_generic r
    else if equal h (codes "Basic")
    then codes "Basic " ++ redact_generic r
    else s

-- `redactHeader`
unfoldable pub redact_header : Bytes → Bytes → Bytes
unfolding equal to_lower contains_text redact_authorization
redact_header name s =
    if equal (to_lower name) (codes "authorization")
    then redact_authorization s
    else if contains_text (to_lower name) (codes "-key")
    then redact_generic s
    else s
