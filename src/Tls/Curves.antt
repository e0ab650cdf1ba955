-- ===== src/Tls/Curves.antt =====
-- The curves, written and read.
use joe_cli_http.Prelude.{
  ℕ, false, List, [], ◌∷◌, ◌++◌, ◌≡◌, ◌≢◌, refl, ◌∙◌, ap, sym, append_assoc, append-nil, ok, All,
  ◌⊎◌, inl, inr,
}
use joe_cli_http.Prelude.Text.{codes, join, split, contains, split-append, split_absent}
use joe_cli_http.Tls.{curve, curve_name, append_ids, set_curves, show_curves, id_names}

-- One of the four curves.
abbrev pub IsCurve : ℕ → Type 0
IsCurve i = (i ≡ 23) ⊎ (i ≡ 24) ⊎ (i ≡ 25) ⊎ (i ≡ 29)

record IsNamed (i : ℕ) : Type 0 where
  found : curve (curve_name i) ≡ ok i
  no_comma : contains (curve_name i) b',' ≡ false

IsCurve-IsNamed : (i : ℕ) → IsCurve i → IsNamed i
unfolding curve curve_name contains
IsCurve-IsNamed i (inl e) = rw e (record { found = refl; no_comma = refl })
IsCurve-IsNamed i (inr (inl e)) = rw e (record { found = refl; no_comma = refl })
IsCurve-IsNamed i (inr (inr (inl e))) = rw e (record { found = refl; no_comma = refl })
IsCurve-IsNamed i (inr (inr (inr e))) = rw e (record { found = refl; no_comma = refl })

append_ids-names :
    (items ids : List ℕ)
    → All IsCurve ids
    → append_ids curve items (id_names curve_name ids) ≡ ok (items ++ ids)
unfolding append_ids id_names
append_ids-names items [] h = ap ok (sym (append-nil items))
append_ids-names items (i ∷ ids) h =
    rw (IsCurve-IsNamed i h.0).found (append_ids-names (items ++ i ∷ []) ids h.1)
    ∙ ap ok (append_assoc items (i ∷ []) ids)

split-names :
    (i : ℕ) (ids : List ℕ)
    → All IsCurve (i ∷ ids)
    → split b',' (join (codes ",") (id_names curve_name (i ∷ ids))) ≡ id_names curve_name (i ∷ ids)
unfolding id_names join
split-names i [] h = split_absent b',' (curve_name i) (IsCurve-IsNamed i h.0).no_comma
split-names i (j ∷ ids) h =
    split-append b',' (curve_name i) _ (IsCurve-IsNamed i h.0).no_comma
    ∙ ap (◌∷◌ (curve_name i)) (split-names j ids h.1)

-- Curves that are written as text, at least one, are read back behind those that are there.
pub set_curves-show_curves :
    (items ids : List ℕ)
    → ids ≢ []
    → All IsCurve ids
    → set_curves items (show_curves ids) ≡ ok (items ++ ids)
unfolding set_curves show_curves
set_curves-show_curves items [] n h = absurd (n refl)
set_curves-show_curves items (i ∷ ids) n h =
    ap (append_ids curve items) (split-names i ids h) ∙ append_ids-names items (i ∷ ids) h
