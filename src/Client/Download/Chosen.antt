-- ===== src/Client/Download/Chosen.antt =====
-- httpclient/client.go: the downloader that a client uses, and the setters that choose it.
use joe_cli_http.Prelude.{
  Bool, true, false, List, [], ◌∷◌, ◌++◌, Option, none, some, if◌then◌else◌, Bytes,
}
use joe_cli_http.Prelude.Decimal.{ℤ}
use joe_cli_http.Client.Integrity.{Integrity}
use joe_cli_http.Client.Download.{Downloader, mode, with_strip_components, preserve_request_path}
use joe_cli_http.Client.Download.Open.{ExprAdapter, new_file_downloader}

-- The `Downloader` of a client: the terminal's, one of this file, or one that checks a hash.
pub data AnyDownloader : Type 0 where
  to_writer : Bool → AnyDownloader
  by_mode : Downloader → AnyDownloader
  by_expression : ExprAdapter → AnyDownloader
  checked : Integrity → AnyDownloader → AnyDownloader

-- The middleware of `SetIntegrity` and of `SetStripComponents`, whose type assertion panics if the
-- downloader is no mode.
pub data DownloaderMiddleware : Type 0 where
  integrity : Integrity → DownloaderMiddleware
  strip : ℤ → DownloaderMiddleware

unfoldable pub wrap_downloader : DownloaderMiddleware → AnyDownloader → Option AnyDownloader
unfolding with_strip_components
wrap_downloader (integrity i) d = some (checked i d)
wrap_downloader (strip count) (by_mode (mode m)) = some (by_mode (with_strip_components m count))
wrap_downloader (strip count) _ = none

unfoldable pub wrap_downloaders : List DownloaderMiddleware → AnyDownloader → Option AnyDownloader
unfolding wrap_downloader
wrap_downloaders [] d = some d
wrap_downloaders (m ∷ ms) d = elim (wrap_downloader m d) [
  | none ↦ none
  | some e ↦ wrap_downloaders ms e
]

-- The fields of `Client` that downloads depend on
pub record Downloads : Type 0 where
  pub downloader : Option AnyDownloader
  pub downloader_middleware : List DownloaderMiddleware

-- `actualDownloader`; `none` is a panic. With no downloader the output is the standard one.
unfoldable pub actual_downloader : Downloads → Option AnyDownloader
unfolding wrap_downloaders
actual_downloader c =
    wrap_downloaders c.downloader_middleware
      (elim c.downloader [ none ↦ to_writer true | some d ↦ d ])

-- `SetDownloadFile`
unfoldable pub set_download_file : Downloads → AnyDownloader → Downloads
set_download_file c v = record c { downloader = some v }

-- `AddDownloaderMiddleware`
unfoldable pub add_downloader_middleware : Downloads → DownloaderMiddleware → Downloads
add_downloader_middleware c fn = record c {
  downloader_middleware = c.downloader_middleware ++ fn ∷ [];
}

-- `SetOutputFile`
unfoldable pub set_output_file : (Bytes → Bytes → Bool) → Downloads → Bytes → Downloads
unfolding set_download_file new_file_downloader
set_output_file contains_text c f =
    set_download_file c (by_expression (new_file_downloader contains_text f))

-- `SetNoOutput`; the writer is `io.Discard`.
unfoldable pub set_no_output : Downloads → Bool → Downloads
set_no_output c b = record c { downloader = if b then some (to_writer false) else none }

-- `SetIntegrity`
unfoldable pub set_integrity : Downloads → Integrity → Downloads
unfolding add_downloader_middleware
set_integrity c i = add_downloader_middleware c (integrity i)

-- `SetStripComponents`
unfoldable pub set_strip_components : Downloads → ℤ → Downloads
unfolding set_download_file add_downloader_middleware
set_strip_components c count =
    add_downloader_middleware (set_download_file c (by_mode (mode preserve_request_path)))
      (strip count)
