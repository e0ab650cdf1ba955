-- ===== src/Client/Download/Open.antt =====
-- httpclient/downloader.go and httpclient/integrity.go: opening the files that responses are saved to.
-- The file system and `filepath.Dir` are not the program's: `Files` says what they answer. The
-- expressions of the joe-cli package are a parameter of the file downloader.
use joe_cli_http.Prelude.{
  ℕ, Bool, not, List, [], ◌∷◌, ◌++◌, ◌+◌, if◌then◌else◌, Bytes, Outcome, ok, err, panics,
}
use joe_cli_http.Prelude.Text.{codes, equal}
use joe_cli_http.Client.Download.{
  mode_file_name, strip_file_name, Downloader, mode, stripped, file_expression, index_suffix,
}
use joe_cli_http.Client.Expr.{Names, Expander, number, text, unknown}
use joe_cli_http.Client.Integrity.{Integrity, Hash, Checker, new_checker}

-- A file system: whether a directory is missing by `Stat`, whether `Create` succeeds, and what
-- package path/filepath says of names.
pub record Files : Type 0 where
  pub dir : Bytes → Bytes
  pub is_missing : Bytes → Bool
  pub creates : Bytes → Bool
  pub split_path : Bytes → Bytes × Bytes
  pub join_path : List Bytes → Bytes

-- What `openFileName` does to the file system.
pub data Act : Type 0 where
  made_dir : Bytes → Act
  created : Bytes → Act

pub data Error : Type 0 where
  no_file_name : Error
  not_created : Error
  not_linked : Hash → Error

-- The test before `MkdirAll`
unfoldable pub ensure_dir : Files → Bytes → List Act
ensure_dir fs fn = if fs.is_missing (fs.dir fn) then made_dir (fs.dir fn) ∷ [] else []

-- `openFileName` behind its test of the name
unfoldable pub open_named : Files → Bytes → List Act × Outcome Error Bytes
unfolding ensure_dir
open_named fs fn =
    if fs.creates fn
    then (ensure_dir fs fn ++ created fn ∷ [], ok fn)
    else (ensure_dir fs fn, err not_created)

-- `openFileName`, of the name that the downloader gives: the file that is opened, by its name.
unfoldable pub open_file_name : Files → Bytes → List Act × Outcome Error Bytes
unfolding open_named
open_file_name fs [] = ([], err no_file_name)
open_file_name fs (c ∷ s) = open_named fs (c ∷ s)

-- `FileName` of a mode, with its directories stripped or not
unfoldable pub downloader_file_name : Files → Downloader → Bytes → Bytes
unfolding mode_file_name strip_file_name
downloader_file_name fs (mode m) uri = mode_file_name m uri
downloader_file_name fs (stripped count m) uri =
    strip_file_name fs.split_path fs.join_path count m uri

-- `OpenDownload` of a mode, with its directories stripped or not
unfoldable pub open_mode : Files → Downloader → Bytes → List Act × Outcome Error Bytes
unfolding open_file_name downloader_file_name
open_mode fs d uri = open_file_name fs (downloader_file_name fs d uri)

-- `exprAdapter`. The index is -1 before the first download: `next_index` is one more.
pub record ExprAdapter : Type 0 where
  pub next_index : ℕ
  pub expr : Bytes

-- `NewFileDownloader`
unfoldable pub new_file_downloader : (Bytes → Bytes → Bool) → Bytes → ExprAdapter
unfolding file_expression
new_file_downloader contains_text f = record {
  next_index = 0;
  expr = file_expression contains_text f;
}

-- `expandIndex`
unfoldable pub expand_index : ℕ → Names
unfolding index_suffix equal
expand_index index k =
    if equal k (codes "index")
    then number index
    else if equal k (codes "index.suffix")
    then text (index_suffix index)
    else unknown

module _ (x : Expander) where
  -- `exprAdapter.FileName`, at the index of the download and the names of the response.
  unfoldable pub adapter_file_name : ℕ → Bytes → Names → Bytes
  unfolding expand_index
  adapter_file_name index expr response =
      x.expand expr (x.compose (expand_index index ∷ response ∷ []))

  -- `exprAdapter.OpenDownload`
  unfoldable pub open_adapter :
      Files → ExprAdapter → Names → ExprAdapter × List Act × Outcome Error Bytes
  unfolding open_file_name adapter_file_name
  open_adapter fs e response =
      let (acts, r) = open_file_name fs (adapter_file_name e.next_index e.expr response) in
      (record e { next_index = e.next_index + 1 }, acts, r)

  -- Successive downloads by one downloader: the names that it gives them.
  unfoldable pub adapter_names : ExprAdapter → List Names → List Bytes
  unfolding adapter_file_name
  adapter_names e [] = []
  adapter_names e (r ∷ rs) =
      adapter_file_name e.next_index e.expr r
      ∷ adapter_names (record e { next_index = e.next_index + 1 }) rs

-- `integrityDownloader.OpenDownload`, of what the downloader inside it returned. The test is
-- `Available`; an output that is not used is not closed.
unfoldable pub open_checked :
    (Hash → Bool)
    → Integrity
    → List Act × Outcome Error Bytes
    → List Act × Outcome Error (Bytes × Checker)
unfolding new_checker
open_checked available i (acts, err e) = (acts, err e)
open_checked available i (acts, panics) = (acts, panics)
open_checked available i (acts, ok output) =
    if not (available i.hash)
    then (acts, err (not_linked i.hash))
    else (acts, ok (output, new_checker i.digest))
