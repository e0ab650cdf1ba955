-- ===== src/Client/Download/Distinct.antt =====
-- Successive downloads go to files of different names.
use joe_cli_http.Prelude.{
  ℕ, false, List, [], ◌∷◌, ◌++◌, ◌+◌, ◌==◌, ◌≤◌, ◌<◌, length, subst, Bytes, ◌≡◌, ◌≢◌, refl, sym, ap,
  ◌∙◌, arith, All, inl, inr, Bool-cases,
}
use joe_cli_http.Prelude.Text.{codes}
use joe_cli_http.Prelude.Decimal.{show_nat, parse_int, parse_int-show_nat, max_int64}
use joe_cli_http.Client.Redact.{contains_text}
use joe_cli_http.Client.Download.{file_expression, index_suffix}
use joe_cli_http.Client.Expr.{Names, Expander, text}
use joe_cli_http.Client.Download.Open.{
  ExprAdapter, expand_index, new_file_downloader, adapter_file_name, adapter_names,
}

append_cancel : (f s t : Bytes) → f ++ s ≡ f ++ t → s ≡ t
append_cancel [] s t e = e
append_cancel (c ∷ f) s t e = append_cancel f s t (cc)

show_nat_injective : (m n : ℕ) → m ≤ max_int64 → n ≤ max_int64 → show_nat m ≡ show_nat n → m ≡ n
show_nat_injective m n hm hn e =
    let p = sym (parse_int-show_nat m hm) ∙ ap parse_int e ∙ parse_int-show_nat n hn in cc

index_suffix_injective :
    (m n : ℕ) → m ≤ max_int64 → n ≤ max_int64 → index_suffix m ≡ index_suffix n → m ≡ n
unfolding index_suffix
index_suffix_injective m n hm hn e = elim (Bool-cases (m == 0)) [
  | inl a ↦ elim (Bool-cases (n == 0)) [ inl b ↦ ground arith | inr b ↦ cc (rw (a, b) at e) ]
  | inr a ↦ elim (Bool-cases (n == 0)) [
    | inl b ↦ cc (rw (a, b) at e)
    | inr b ↦ show_nat_injective m n hm hn (append_cancel (b'.' ∷ []) _ _ (rw (a, b) at e))
  ]
]

-- The texts differ from one another.
abbrev pub IsDistinct : List Bytes → Type 0
IsDistinct [] = Unit
IsDistinct (x ∷ xs) = All (λ y. x ≢ y) xs × IsDistinct xs

module _ (x : Expander) (f : Bytes)
    (composes : (g h : Names) (k t : Bytes) → g k ≡ text t → x.compose (g ∷ h ∷ []) k ≡ text t)
    (expands : (look : Names) (t : Bytes)
      → look (codes "index.suffix") ≡ text t
      → x.expand (f ++ codes "%(index.suffix)") look ≡ f ++ t) where
  adapter_file_name_suffix :
      (i : ℕ) (r : Names)
      → adapter_file_name x i (f ++ codes "%(index.suffix)") r ≡ f ++ index_suffix i
  unfolding adapter_file_name
  adapter_file_name_suffix i r = expands _ (index_suffix i) (
      composes (expand_index i) r (codes "index.suffix") (index_suffix i)
        (unfold expand_index in refl))

  abbrev from : ℕ → ExprAdapter
  from i = record { next_index = i; expr = f ++ codes "%(index.suffix)" }

  names_differ :
      (k i : ℕ) (rs : List Names)
      → k < i
      → i + length rs ≤ max_int64
      → All (λ y. f ++ index_suffix k ≢ y) (adapter_names x (from i) rs)
  unfolding adapter_names
  names_differ k i [] lt b = tt
  names_differ k i (r ∷ rs) lt b = (
    λ e.
        let same =
          index_suffix_injective k i (omega arith) (omega arith)
            (append_cancel f _ _ (e ∙ adapter_file_name_suffix i r)) in
        omega arith,
    names_differ k (i + 1) rs (omega arith) (omega arith),
  )

  names-IsDistinct :
      (i : ℕ) (rs : List Names)
      → i + length rs ≤ max_int64
      → IsDistinct (adapter_names x (from i) rs)
  unfolding adapter_names
  names-IsDistinct i [] b = tt
  names-IsDistinct i (r ∷ rs) b = (
    subst (λ n. All (λ y. n ≢ y) (adapter_names x (from (i + 1)) rs))
        (sym (adapter_file_name_suffix i r))
        (names_differ i (i + 1) rs (omega arith) (omega arith)),
    names-IsDistinct (i + 1) rs (omega arith),
  )

  -- A file downloader whose name has no expression in it gives successive downloads, fewer than 2^63,
  -- names that differ from one another, if the joe-cli package asks composed names in their order, and
  -- expands the index behind the name.
  pub adapter_names-IsDistinct :
      (rs : List Names)
      → contains_text f (codes "%(") ≡ false
      → length rs ≤ max_int64
      → IsDistinct (adapter_names x (new_file_downloader contains_text f) rs)
  unfolding new_file_downloader file_expression
  adapter_names-IsDistinct rs c b = rw c (names-IsDistinct 0 rs (omega arith))
