-- ===== src/Prelude/Assoc.antt =====
-- Go maps with string keys, as association lists: `m[k]`, `m[k] = v` and `delete`-free updates.
use mathlib.Core.Path.{◌≡◌, refl}
use mathlib.Core.Option.{Option, none, some}
use mathlib.Core.List.{List, [], ◌∷◌}
use native.Mathlib.Omega.{arith}
use joe_cli_http.Prelude.Tests.{if◌then◌else◌}
use joe_cli_http.Prelude.Lists.{Bytes}
use joe_cli_http.Prelude.Text.{equal, equal_iff}

module _ {ℓ} {V : Type ℓ} where
  -- `v, ok := m[k]`
  unfoldable pub lookup : Bytes → List (Bytes × V) → Option V
  lookup k [] = none
  lookup k ((j, v) ∷ m) = if equal j k then some v else lookup k m

  -- `m[k] = v`
  unfoldable pub insert : Bytes → V → List (Bytes × V) → List (Bytes × V)
  insert k v [] = (k, v) ∷ []
  insert k v ((j, w) ∷ m) = if equal j k then (k, v) ∷ m else (j, w) ∷ insert k v m

  -- `maps.Copy(m, n)`
  unfoldable pub copy : List (Bytes × V) → List (Bytes × V) → List (Bytes × V)
  copy m [] = m
  copy m ((k, v) ∷ n) = copy (insert k v m) n

  pub lookup-insert :
      (k j : Bytes) (v : V) (m : List (Bytes × V))
      → lookup j (insert k v m) ≡ (if equal k j then some v else lookup j m)
  unfolding lookup insert
  lookup-insert k j v [] = refl
  lookup-insert k j v ((i, w) ∷ m) =
      ground (arith, equal_iff k j, equal_iff i k, equal_iff i j, lookup-insert k j v m)
