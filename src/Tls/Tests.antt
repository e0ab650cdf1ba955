-- ===== src/Tls/Tests.antt =====
-- tls: the theorem at concrete curves.
use joe_cli_http.Prelude.{ℕ, List, [], ◌∷◌, ok, ◌≡◌, refl, inl, inr}
use joe_cli_http.Tls.{set_curves, show_curves}
use joe_cli_http.Tls.Curves.{set_curves-show_curves}

abbrev two_curves : List ℕ
two_curves = 29 ∷ 23 ∷ []

set_curves-show_curves_example :
    set_curves (24 ∷ []) (show_curves two_curves) ≡ ok (24 ∷ two_curves)
set_curves-show_curves_example =
    set_curves-show_curves (24 ∷ []) two_curves (λ e. cc) (inr (inr (inr refl)), (inl refl, tt))
