-- ===== src/Client/Tests.antt =====
-- httpclient: runs at concrete inputs, and the theorems at them.
use joe_cli_http.Prelude.{
  ℕ, true, List, [], ◌∷◌, Option, none, some, Bytes, ok, ◌≡◌, refl, arith, ◌+◌, ◌*◌, ◌↔◌, ltb,
  if◌then◌else◌, ◌++◌, ◌≤◌, false,
}
use joe_cli_http.Prelude.Text.{codes}
use joe_cli_http.Prelude.Text.{contains, has_prefix}
use joe_cli_http.Template.Parse.{is_valid_name}
use joe_cli_http.Template.Parse.Grammar.{Expression, whole, show_template, IsShown, IsText}
use joe_cli_http.Vars.{Variable}
use joe_cli_http.Client.Values.{UserInfo, set_user_info, show_user_info, has_scheme, schemes}
use joe_cli_http.Client.Values.Laws.{set_user_info-show_user_info}
use joe_cli_http.Client.Cacheable.{Cacheable, Made, made, failed, new, apply_all}
use joe_cli_http.Client.Cacheable.Once.{new-new}
use joe_cli_http.Client.Redact.{to_lower, redact_header}
use joe_cli_http.Client.Redact.Hidden.{redact_header_hides}
use joe_cli_http.Client.Location.{Urls, AutoLocation, resolve, location_url}
use joe_cli_http.Client.Location.Templates.{url_of, resolve-url_of}
use joe_cli_http.Client.Middleware.{compose_middleware, composite_handle}
use joe_cli_http.Client.Middleware.Chain.{
  Func, handles, present, run_in_order, composite_handle-run_in_order,
}
use joe_cli_http.Client.Integrity.{
  Integrity, Answer, md5, parse_integrity, new_checker, write_all, close_checker,
}
use joe_cli_http.Client.Integrity.Laws.{
  show_integrity, parse_integrity-show_integrity, accepted, taken, close_checker_lem,
}

-- A request is a number here: one function adds, one refuses large numbers, one is nil, and one the
-- nil interface.
abbrev some_functions : List (Func ℕ ℕ)
some_functions =
    some (some (λ r. (r + 5, none)))
    ∷ none
    ∷ some (some (λ r. if ltb 10 r then (r, some 1) else (r, none)))
    ∷ some none
    ∷ some (some (λ r. (r * 2, none)))
    ∷ []

composite_handle-run_in_order_example :
    composite_handle (compose_middleware (handles 99 some_functions)) 3 none
    ≡ run_in_order (present some_functions) 3
composite_handle-run_in_order_example = composite_handle-run_in_order 99 some_functions 3 none

abbrev some_integrity : Integrity
some_integrity = record {
  hash = md5;
  digest = 0 ∷ 1 ∷ 2 ∷ 3 ∷ 250 ∷ 171 ∷ 6 ∷ 7 ∷ 8 ∷ 9 ∷ 10 ∷ 11 ∷ 12 ∷ 13 ∷ 14 ∷ 255 ∷ [];
}

parse_integrity-show_integrity_example :
    parse_integrity (show_integrity some_integrity) ≡ ok some_integrity
parse_integrity-show_integrity_example =
    parse_integrity-show_integrity some_integrity refl (omega arith)

-- A sum that keeps the first byte.
abbrev first_byte : Bytes → Bytes
first_byte [] = []
first_byte (c ∷ s) = c ∷ []

abbrev no_error : Option Bytes
no_error = none

-- The output takes too little of the second write.
abbrev some_writes : List (Bytes × Answer)
some_writes =
    (codes "ab", record { count = 2; failure = none })
    ∷ (codes "xy", record { count = 1; failure = none })
    ∷ (codes "c", record { count = 1; failure = none })
    ∷ []

close_checker_lem_example :
    let r = close_checker first_byte no_error (write_all (new_checker (codes "a")) some_writes) in
    ((r.1 ≡ none) ↔ ((codes "a" ≡ first_byte (accepted some_writes)) × (no_error ≡ none)))
    × ((r.0.closed ≡ true) ↔ (codes "a" ≡ first_byte (accepted some_writes)))
    × (r.0.output ≡ taken some_writes)
close_checker_lem_example = close_checker_lem first_byte (codes "a") some_writes no_error

abbrev some_user : UserInfo
some_user = record { user = codes "me"; password = codes "a:b"; has_password = true }

me_no_colon : contains (codes "me") b':' ≡ false
unfolding contains
me_no_colon = refl

set_user_info-show_user_info_example : set_user_info (show_user_info some_user) ≡ some_user
set_user_info-show_user_info_example = set_user_info-show_user_info some_user me_no_colon (λ e. cc)

-- The factory has not been called.
abbrev fresh : Cacheable ℕ ℕ
fresh = record {
  discrete = none;
  has_factory = true;
  middleware = [];
  cached = none;
  cached_err = none;
  calls = 0;
}

abbrev seven : Made ℕ ℕ
seven = made (some 7)

abbrev eight : Made ℕ ℕ
eight = failed 8

fresh_gives : (new fresh seven).1 ≡ ok (some 7)
unfolding new apply_all
fresh_gives = refl

new-new_example :
    (new (new fresh seven).0 eight ≡ new fresh seven) × ((new fresh seven).0.calls ≤ 0 + 1)
new-new_example = new-new fresh seven eight (λ e. cc fresh_gives) (λ e. cc fresh_gives)

authorization_name : to_lower (codes "Authorization") ≡ codes "authorization"
unfolding to_lower
authorization_name = refl

redact_header_hides_example :
    redact_header (codes "Authorization") (codes "Bearer " ++ codes "abcd0123456789xyz99")
    ≡ redact_header (codes "Authorization") (codes "Bearer " ++ codes "abcd9876543210abc99")
redact_header_hides_example =
    redact_header_hides (codes "Authorization") (codes "abcd0123456789xyz99")
      (codes "abcd9876543210abc99") authorization_name refl refl refl

abbrev concat : List Bytes → Bytes
concat [] = []
concat (b ∷ bs) = b ++ concat bs

-- URLs are texts here, and `path.Join` puts slashes between.
abbrev text_urls : Urls Bytes
text_urls = record {
  parse_url = some;
  resolve_reference = λ b u. u;
  join_path = λ u. u;
  join = concat;
}

abbrev id_expression : Expression
id_expression = record {
  operation = none;
  variable = record { name = codes "id"; modifier = whole };
  variables = [];
  rest = [];
}

id_scheme : has_scheme schemes (show_template (codes "http://h/") (id_expression ∷ [])) ≡ true
unfolding has_scheme has_prefix
id_scheme = refl

host-IsText : IsText (codes "http://h/")
unfolding contains
host-IsText = (refl, refl)

id-IsShown : IsShown id_expression
unfolding is_valid_name contains
id-IsShown = record {
  unambiguous = refl;
  variable_valid = record { name_valid = refl; length_fits = tt };
  variables_valid = tt;
  rest_text = (refl, refl);
}

resolve-url_of_example :
    (a : AutoLocation) × (rest : List AutoLocation) × (resolve text_urls (record {
      urls = show_template (codes "http://h/") (id_expression ∷ []) ∷ [];
      vars = (codes "id", Variable.text (codes "7")) ∷ [];
      base = none;
    })
      ≡ a ∷ rest)
    × (location_url text_urls a
        ≡ url_of text_urls
            (codes "http://h/")
            (id_expression ∷ [])
            ((codes "id", Variable.text (codes "7")) ∷ []))
resolve-url_of_example =
    resolve-url_of text_urls (codes "http://h/") (id_expression ∷ []) [] (codes "id")
      (Variable.text (codes "7")) [] none refl id_scheme host-IsText (id-IsShown, tt)
