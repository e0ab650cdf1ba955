-- ===== src/Vars/Frame.antt =====
-- What `Set` leaves alone.
use joe_cli_http.Prelude.{
  Bool, true, false, not, List, Option, none, some, Bytes, ◌≡◌, ◌≢◌, refl, arith, if◌then◌else◌,
}
use joe_cli_http.Prelude.Text.{equal_iff, cut, codes, has_prefix, ends_in}
use joe_cli_http.Prelude.Assoc.{lookup, insert, lookup-insert, copy}
use joe_cli_http.Template.Types.{Atom}
use joe_cli_http.Vars.{
  Variable, text, items, dict, Vars, Error, set_string, set_array, set_map, map_over, array_not_map,
  string_not_map, open_array, open_map, set_cut, set, or_empty,
}

lookup-insert_other :
    (k j : Bytes) (v : Variable) (t : Vars) → j ≢ k → lookup j (insert k v t) ≡ lookup j t
lookup-insert_other k j v t n = ground (arith, lookup-insert k j v t, equal_iff k j)

-- What a result keeps of the variables `t`, but for the one named `k`.
record IsFrame (t : Vars) (k : Bytes) (r : Vars × Option Error) : Type 0 where
  others : (j : Bytes) → j ≢ k → lookup j r.0 ≡ lookup j t
  unchanged : (e : Error) → r.1 ≡ some e → r.0 ≡ t

insert-IsFrame : (t : Vars) (k : Bytes) (v : Variable) → IsFrame t k (insert k v t, none)
insert-IsFrame t k v = record {
  others = λ j n. lookup-insert_other k j v t n;
  unchanged = λ e h. cc;
}

same-IsFrame : (t : Vars) (k : Bytes) (e : Error) → IsFrame t k (t, some e)
same-IsFrame t k e = record { others = λ j n. refl; unchanged = λ e h. refl }

map_over-IsFrame :
    (t : Vars) (k : Bytes) (m : List (Bytes × Atom)) (o : Option Variable)
    → IsFrame t k (map_over t k m o)
unfolding map_over
map_over-IsFrame t k m none = insert-IsFrame t k (dict m)
map_over-IsFrame t k m (some (items c)) = same-IsFrame t k array_not_map
map_over-IsFrame t k m (some (text c)) = same-IsFrame t k string_not_map
map_over-IsFrame t k m (some (dict c)) = insert-IsFrame t k (dict (copy c m))

if-IsFrame :
    (t : Vars) (k : Bytes) (b : Bool) (x y : Vars × Option Error)
    → IsFrame t k x
    → IsFrame t k y
    → IsFrame t k (if b then x else y)
if-IsFrame t k true x y h g = h
if-IsFrame t k false x y h g = g

set_cut-IsFrame : (t : Vars) (a : Bytes × Bytes × Bool) → IsFrame t a.0 (set_cut t a)
unfolding set_cut set_string set_array set_map
set_cut-IsFrame t (k, v, found) = if-IsFrame t k (not found) _ _ (insert-IsFrame t k (text k)) (
    if-IsFrame t k (has_prefix v (codes "[")) _ _
      (if-IsFrame t k (not (ends_in v b']')) _ _ (same-IsFrame t k open_array)
        (insert-IsFrame t k _))
      (if-IsFrame t k (has_prefix v (codes "{")) _ _
        (if-IsFrame t k (not (ends_in v b'}')) _ _ (same-IsFrame t k open_map)
          (map_over-IsFrame t k _ (lookup k t)))
        (insert-IsFrame t k (text v))))

-- Whatever the argument, and whether or not it fails, `Set` leaves every variable but the one that
-- the argument names before its equals sign.
pub lookup-set_other :
    (t : Option Vars) (arg j : Bytes)
    → j ≢ (cut b'=' arg).0
    → lookup j (set t arg).0 ≡ lookup j (or_empty t)
unfolding set
lookup-set_other t arg j n = (set_cut-IsFrame (or_empty t) (cut b'=' arg)).others j n

-- A `Set` that fails leaves the variables as they were, none if the map was nil.
pub set_unchanged :
    (t : Option Vars) (arg : Bytes) {e : Error}
    → (set t arg).1 ≡ some e
    → (set t arg).0 ≡ or_empty t
unfolding set
set_unchanged t arg h = (set_cut-IsFrame (or_empty t) (cut b'=' arg)).unchanged _ h
