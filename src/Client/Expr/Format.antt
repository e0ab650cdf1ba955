-- ===== src/Client/Expr/Format.antt =====
-- httpclient/expr/formatter.go: how statuses and methods are printed, in color or not.
use joe_cli_http.Prelude.{ℕ, ◌++◌, ◌*◌, ◌/◌, ◌==◌, if◌then◌else◌, Bytes}
use joe_cli_http.Prelude.Text.{codes, equal}
use joe_cli_http.Prelude.Decimal.{show_nat}
use joe_cli_http.Client.Redact.{to_lower}
use joe_cli_http.Client.Expr.{Expander}

-- `HTTPStatus.Color`
unfoldable pub status_color : ℕ → Bytes
status_color s =
    let hundreds = 100 * (s / 100) in
    if hundreds == 100
    then codes "Magenta"
    else if hundreds == 200
    then codes "Green"
    else if hundreds == 300
    then codes "Yellow"
    else codes "Red"

-- `HTTPStatus.String`; the parameter is `http.StatusText`.
unfoldable pub show_status : (ℕ → Bytes) → ℕ → Bytes
unfolding show_nat
show_status status_text s = show_nat s ++ (codes " " ++ status_text s)

-- `HTTPMethod.Color`
unfoldable pub method_color : Bytes → Bytes
unfolding equal
method_color m =
    if equal m (codes "DELETE")
    then codes "Red"
    else if equal m (codes "GET")
    then codes "Blue"
    else codes "Magenta"

-- `writeFormatted`, of a text and its color
unfoldable pub write_formatted : Expander → Bytes → Bytes → Bytes
unfolding to_lower
write_formatted x color s =
    x.color (codes "reverse") ++ (x.color (to_lower color) ++ (s ++ x.color (codes "reset")))

-- `HTTPStatus.Format`; the last parameter is `fmt.Fprintf` of the verb.
unfoldable pub format_status : Expander → (ℕ → Bytes) → (ℕ → ℕ → Bytes) → ℕ → ℕ → Bytes
unfolding write_formatted status_color show_status
format_status x status_text plain verb s =
    if verb == b'C'
    then write_formatted x (status_color s) (show_status status_text s)
    else plain verb s

-- `HTTPMethod.Format`
unfoldable pub format_method : Expander → (ℕ → Bytes → Bytes) → ℕ → Bytes → Bytes
unfolding write_formatted method_color
format_method x plain verb m =
    if verb == b'C' then write_formatted x (method_color m) m else plain verb m
