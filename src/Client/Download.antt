-- ===== src/Client/Download.antt =====
-- httpclient/downloader.go: the names of the files that responses are saved to. `filepath.Split`,
-- `filepath.Join` and the printing of expressions are parameters.
pub mod Names
pub mod Open
pub mod Chosen
pub mod Distinct
mod Tests
use joe_cli_http.Prelude.{
  ℕ, zero, suc, Bool, List, [], ◌∷◌, ◌++◌, ◌+◌, ◌-◌, ◌%◌, ltb, ◌==◌, if◌then◌else◌, Bytes, length,
  drop,
}
use joe_cli_http.Prelude.Text.{codes, split, contains}
use joe_cli_http.Prelude.Decimal.{ℤ, pos, negsuc, show_nat}

-- `DownloadMode`
pub data DownloadMode : Type 0 where
  preserve_request_file preserve_request_path : DownloadMode

-- `fileName`: what stands behind the last slash.
unfoldable pub file_name : Bytes → Bytes
file_name [] = []
file_name (c ∷ s) = if contains (c ∷ s) b'/' then file_name s else c ∷ s

-- `strings.TrimLeft` of slashes
unfoldable pub trim_slashes : Bytes → Bytes
trim_slashes [] = []
trim_slashes (c ∷ s) = if c == b'/' then trim_slashes s else c ∷ s

-- `DownloadMode.FileName`, of the request's URI
unfoldable pub mode_file_name : DownloadMode → Bytes → Bytes
unfolding file_name trim_slashes
mode_file_name preserve_request_file uri = file_name uri
mode_file_name preserve_request_path uri = trim_slashes uri

-- The `switch` of `stripComponents.FileName` on the count.
unfoldable pub strip_dirs : ℤ → List Bytes → List Bytes
strip_dirs (pos n) dirs = if ltb (length dirs) n then [] else drop n dirs
strip_dirs (negsuc n) dirs =
    if ltb (length dirs) (suc n) then dirs else drop ((length dirs - suc n) % length dirs) dirs

-- `stripComponents.FileName`; the parameters are `filepath.Split` and `filepath.Join`.
unfoldable pub strip_file_name :
    (Bytes → Bytes × Bytes) → (List Bytes → Bytes) → ℤ → DownloadMode → Bytes → Bytes
unfolding strip_dirs mode_file_name
strip_file_name split_path join_path count mode uri =
    let res = mode_file_name mode uri in
    let (dir, base) = split_path res in
    elim count [
      | pos n ↦ elim n [
        | zero ↦ res
        | suc k ↦ join_path (strip_dirs (pos (suc k)) (split b'/' dir) ++ base ∷ [])
      ]
      | negsuc n ↦ join_path (strip_dirs (negsuc n) (split b'/' dir) ++ base ∷ [])
    ]

-- A `Downloader` of this file that names its file.
pub data Downloader : Type 0 where
  mode : DownloadMode → Downloader
  stripped : ℤ → DownloadMode → Downloader

-- `WithStripComponents`
unfoldable pub with_strip_components : DownloadMode → ℤ → Downloader
with_strip_components preserve_request_path count = stripped count preserve_request_path
with_strip_components preserve_request_file count = mode preserve_request_file

-- `NewFileDownloader`: the expression, with an index behind it if it has none. The parameter is
-- `strings.Contains`.
unfoldable pub file_expression : (Bytes → Bytes → Bool) → Bytes → Bytes
file_expression contains_text f =
    if contains_text f (codes "%(") then f else f ++ codes "%(index.suffix)"

-- `expandIndex` of `index.suffix`
unfoldable pub index_suffix : ℕ → Bytes
unfolding show_nat
index_suffix index = if index == 0 then [] else b'.' ∷ show_nat index
