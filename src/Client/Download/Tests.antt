-- ===== src/Client/Download/Tests.antt =====
-- httpclient/downloader.go: the names of three downloads, with a package that expands the index.
use joe_cli_http.Prelude.{List, [], ◌∷◌, ◌++◌, if◌then◌else◌, Bytes, ◌≡◌, refl, false, arith}
use joe_cli_http.Prelude.Text.{codes, has_prefix}
use joe_cli_http.Client.Redact.{contains_text}
use joe_cli_http.Client.Expr.{Expansion, Names, Expander, text, unknown}
use joe_cli_http.Client.Download.Open.{adapter_names, new_file_downloader}
use joe_cli_http.Client.Download.Distinct.{IsDistinct, adapter_names-IsDistinct}

first_known : List Names → Names
first_known [] k = unknown
first_known (f ∷ fs) k = elim (f k) [ unknown ↦ first_known fs k | text t ↦ text t | other ↦ other ]

printed : Expansion → Bytes
printed (text t) = t
printed e = []

expand_index_suffix : Bytes → Names → Bytes
expand_index_suffix [] look = []
expand_index_suffix (c ∷ s) look =
    let rest = expand_index_suffix s look in
    if has_prefix (c ∷ s) (codes "%(index.suffix)")
    then printed (look (codes "index.suffix"))
    else c ∷ rest

abbrev some_expander : Expander
some_expander = record {
  compose = first_known;
  prefix = λ p f. f;
  expand = expand_index_suffix;
  color = λ c. c;
}

some_composes :
    (g h : Names) (k t : Bytes) → g k ≡ text t → some_expander.compose (g ∷ h ∷ []) k ≡ text t
unfolding first_known
some_composes g h k t e = rw e refl

some_expands :
    (look : Names) (t : Bytes)
    → look (codes "index.suffix") ≡ text t
    → some_expander.expand (codes "out" ++ codes "%(index.suffix)") look ≡ codes "out" ++ t
unfolding expand_index_suffix has_prefix printed
some_expands look t e = rw e refl

abbrev no_names : Names
no_names k = unknown

out_plain : contains_text (codes "out") (codes "%(") ≡ false
unfolding contains_text has_prefix
out_plain = refl

adapter_names-IsDistinct_example : IsDistinct (
    adapter_names some_expander
      (new_file_downloader contains_text (codes "out"))
      (no_names ∷ no_names ∷ no_names ∷ []))
adapter_names-IsDistinct_example =
    adapter_names-IsDistinct some_expander (codes "out") some_composes some_expands
      (no_names ∷ no_names ∷ no_names ∷ []) out_plain (omega arith)
