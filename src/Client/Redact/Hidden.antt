-- ===== src/Client/Redact/Hidden.antt =====
-- What a redacted text gives away.
use joe_cli_http.Prelude.{◌++◌, ◌-◌, ◌≡◌, refl, ap, Bytes, length, take, drop}
use joe_cli_http.Prelude.Text.{codes, cut}
use joe_cli_http.Client.Redact.{to_lower, redact_generic, redact_authorization, redact_header}

-- Two secrets of the same length that agree on the first four bytes and the last two are redacted
-- alike: nothing else of a secret shows but its length.
pub redact_generic_hides :
    (s t : Bytes)
    → length s ≡ length t
    → take 4 s ≡ take 4 t
    → drop (length s - 2) s ≡ drop (length s - 2) t
    → redact_generic s ≡ redact_generic t
unfolding redact_generic
redact_generic_hides s t l f b = rw (← l) (rw (f, b) refl)

-- Two bearer tokens of the same length that agree on the first four bytes and the last two are written
-- alike in an `Authorization` header, whatever the case of its name: nothing else of a token shows but
-- its length.
pub redact_header_hides :
    (name s t : Bytes)
    → to_lower name ≡ codes "authorization"
    → length s ≡ length t
    → take 4 s ≡ take 4 t
    → drop (length s - 2) s ≡ drop (length s - 2) t
    → redact_header name (codes "Bearer " ++ s) ≡ redact_header name (codes "Bearer " ++ t)
unfolding redact_header redact_authorization cut
redact_header_hides name s t n l f b =
    rw n (ap (◌++◌ (codes "Bearer ")) (redact_generic_hides s t l f b))
