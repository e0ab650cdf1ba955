-- ===== src/Commands/Flags/Tests.antt =====
-- The number of times that the flag for downloads may be given.
use joe_cli_http.Prelude.{none, ◌≡◌, refl}
use joe_cli_http.Commands.Flags.{download_mode}

third_download : download_mode 3 ≡ none
unfolding download_mode
third_download = refl
