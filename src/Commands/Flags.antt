-- ===== src/Commands/Flags.antt =====
-- The flags and arguments that the commands declare: `cli.Prototype` as far as the program fills it in,
-- and what each flag's value is handed to. What joe-cli does with a prototype is not the program's.
pub mod Requests
pub mod Responses
pub mod Accounts
pub mod Tracing
pub mod Serving
pub mod Secure
pub mod Templates
pub mod Apps
pub mod Related
mod Tests
use joe_cli_http.Prelude.{
  ℕ, zero, suc, Bool, false, ◌||◌, List, [], ◌∷◌, ◌++◌, Option, none, some, Bytes,
}
use joe_cli_http.Prelude.Text.{equal}
use joe_cli_http.Client.Download.{DownloadMode, preserve_request_file, preserve_request_path}

-- The options of `cli` that the program sets; `no_form` is `cli.No`.
pub data FlagOption : Type 0 where
  each_occurrence implied_action no_form optional exits allow_file_reference : FlagOption
  must_exist working_directory : FlagOption

-- The field `Value`, which is not set at `unset`.
pub data FlagValue : Type 0 where
  unset bool_value int_value duration_value file_value virtual_path_value : FlagValue
  var_value json_vars_value template_value : FlagValue
  provider_value : Bytes → FlagValue

-- `completeInterfaces` lists the network's interfaces.
pub data Completion : Type 0 where
  no_completion interfaces : Completion
  values : List Bytes → Completion

-- What `bind.FileBinder` makes of a file.
pub data FileUse : Type 0 where
  file_name open_reader create_writer : FileUse

-- The versions of `crypto/tls` from 1.0 to 1.3
pub data TlsVersion : Type 0 where
  tls10 tls11 tls12 tls13 : TlsVersion

-- What a flag runs: a setter at the flag's value, at `true`, at what a file gives, or at another value
-- (`applies`); a header that is set; a handler of the route; the level that the number of occurrences
-- picks; or an action without a value.
pub data Call : Type 0 where
  no_call counts_downloads : Call
  setter turns_on handles lists_providers runs : Bytes → Call
  file_setter : FileUse → Bytes → Call
  applies sets_header key_pair : Bytes → Bytes → Call
  by_occurrence : Bytes → List Bytes → Call
  versions : TlsVersion → TlsVersion → Call

-- `cli.Prototype`, with the flags that it implies at a value and those that it requires. An empty name
-- is left to the library.
pub record Flag : Type 0 where
  pub name : Bytes
  pub aliases : List Bytes
  pub usage_text : Bytes
  pub help_text : Bytes
  pub category : Bytes
  pub options : List FlagOption
  pub value : FlagValue
  pub takes_many : Bool
  pub env_vars : List Bytes
  pub completion : Completion
  pub file_reference : Bool
  pub implies : List (Bytes × Bytes)
  pub requires : List Bytes
  pub calls : Call

abbrev pub plain_flag : Flag
plain_flag = record {
  name = [];
  aliases = [];
  usage_text = [];
  help_text = [];
  category = [];
  options = [];
  value = unset;
  takes_many = false;
  env_vars = [];
  completion = no_completion;
  file_reference = false;
  implies = [];
  requires = [];
  calls = no_call;
}

-- The `switch` of `SetDownload` on the number of occurrences; the default is an error.
unfoldable pub download_mode : ℕ → Option DownloadMode
download_mode (suc zero) = some preserve_request_file
download_mode (suc (suc zero)) = some preserve_request_path
download_mode _ = none

abbrev implied_names : List (Bytes × Bytes) → List Bytes
implied_names [] = []
implied_names (n ∷ ns) = n.0 ∷ implied_names ns

-- The flags that a flag implies or requires
abbrev pub related_names : Flag → List Bytes
related_names f = implied_names f.implies ++ f.requires

abbrev pub flag_names : Flag → List Bytes
flag_names f = elim f.name [ [] ↦ f.aliases | c ∷ s ↦ (c ∷ s) ∷ f.aliases ]

abbrev pub has_name : Bytes → List Bytes → Bool
has_name n [] = false
has_name n (m ∷ ms) = equal n m || has_name n ms

abbrev pub answers_to : Flag → Bytes → Bool
answers_to f n = has_name n (flag_names f)
