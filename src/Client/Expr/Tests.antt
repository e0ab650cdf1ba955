-- ===== src/Client/Expr/Tests.antt =====
-- httpclient/expr.go: the theorem at a concrete name, and runs.
use joe_cli_http.Prelude.{◌≡◌, refl}
use joe_cli_http.Prelude.Text.{codes, contains, join}
use joe_cli_http.Client.Expr.{header_canonical_name, find_words, with_first, words_from}

keeps_dashes : header_canonical_name (codes "x-Api") ≡ codes "x-Api"
unfolding header_canonical_name contains
keeps_dashes = refl

splits_letters : header_canonical_name (codes "ETag") ≡ codes "E-Tag"
unfolding header_canonical_name contains find_words with_first words_from join
splits_letters = refl
