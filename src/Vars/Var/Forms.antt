-- ===== src/Vars/Var/Forms.antt =====
-- The three ways to write a variable with its type.
use joe_cli_http.Prelude.{
  ℕ, true, false, List, [], ◌∷◌, ◌++◌, none, some, ◌≡◌, ◌≢◌, refl, arith, ◌∙◌, Bytes,
}
use joe_cli_http.Prelude.Text.{codes, contains, cut-append, cut_absent}
use joe_cli_http.Vars.Var.{
  VarState, VarType, string, array, map, end_state, next, next_at, new_state, var_types,
  parse_inline, parse_nvp, parse_type, parse_name, parse_value, set_value, matches_inline, is_pair,
  equals_then_more, value_of,
}
use joe_cli_http.Vars.Var.Progress.{take_all, take_all_step, take_all_last}

-- The three spellings of a type.
pub data Spelling : Type 0 where
  full lower upper : Spelling

abbrev pub spell : VarType → Spelling → Bytes
spell string full = codes "string"
spell string lower = codes "s"
spell string upper = codes "S"
spell array full = codes "array"
spell array lower = codes "a"
spell array upper = codes "A"
spell map full = codes "map"
spell map lower = codes "m"
spell map upper = codes "M"

record IsSpelled (w : Bytes) (t : VarType) : Type 0 where
  known : var_types w ≡ some t
  no_comma : contains w b',' ≡ false
  no_equals : contains w b'=' ≡ false

spell-IsSpelled : (t : VarType) (s : Spelling) → IsSpelled (spell t s) t
unfolding var_types contains
spell-IsSpelled string full = record { known = refl; no_comma = refl; no_equals = refl }
spell-IsSpelled string lower = record { known = refl; no_comma = refl; no_equals = refl }
spell-IsSpelled string upper = record { known = refl; no_comma = refl; no_equals = refl }
spell-IsSpelled array full = record { known = refl; no_comma = refl; no_equals = refl }
spell-IsSpelled array lower = record { known = refl; no_comma = refl; no_equals = refl }
spell-IsSpelled array upper = record { known = refl; no_comma = refl; no_equals = refl }
spell-IsSpelled map full = record { known = refl; no_comma = refl; no_equals = refl }
spell-IsSpelled map lower = record { known = refl; no_comma = refl; no_equals = refl }
spell-IsSpelled map upper = record { known = refl; no_comma = refl; no_equals = refl }

-- What every way to write the variable ends in.
abbrev pub complete : VarType → Bytes → Bytes → VarState
complete t name value = record {
  name = name;
  value = some (value_of t value);
  my_type = t;
  state = end_state;
}

-- No line feed, and a character at least.
abbrev pub IsLine : Bytes → Type 0
IsLine s = (contains s 10 ≡ false) × (s ≢ [])

equals_then_more-append : (s v : Bytes) (c : ℕ) → equals_then_more (s ++ b'=' ∷ c ∷ v) ≡ true
unfolding equals_then_more
equals_then_more-append [] v c = refl
equals_then_more-append (d ∷ []) v c = ground arith
equals_then_more-append (d ∷ e ∷ s) v c = ground (arith, equals_then_more-append (e ∷ s) v c)

contains-append_pair :
    (s v : Bytes)
    → contains s 10 ≡ false
    → contains v 10 ≡ false
    → contains (s ++ b'=' ∷ v) 10 ≡ false
unfolding contains
contains-append_pair [] v h k = ground arith
contains-append_pair (c ∷ s) v h k = ground (arith, contains-append_pair s v)

pair-is_pair :
    (name value : Bytes) → IsLine name → IsLine value → is_pair (name ++ b'=' ∷ value) ≡ true
unfolding is_pair
pair-is_pair [] value h k = absurd (h.1 refl)
pair-is_pair name [] h k = absurd (k.1 refl)
pair-is_pair (c ∷ s) (d ∷ v) h k =
    ground (arith, equals_then_more-append s v d, contains-append_pair (c ∷ s) (d ∷ v) h.0 k.0)

contains-append_equals : (s v : Bytes) → contains (s ++ b'=' ∷ v) b'=' ≡ true
unfolding contains
contains-append_equals [] v = ground arith
contains-append_equals (c ∷ s) v = ground (arith, contains-append_equals s v)

module _ (t : VarType) (s : Spelling) (name value : Bytes) (n : IsLine name) (v : IsLine value)
    (e : contains name b'=' ≡ false) where
  inline_form :
      next new_state (spell t s ++ b',' ∷ (name ++ b'=' ∷ value)) ≡ (complete t name value, none)
  unfolding next next_at matches_inline parse_inline set_value new_state
  inline_form =
      let p = spell-IsSpelled t s in
      rw
        (
          cut-append b',' (spell t s) (name ++ b'=' ∷ value) p.no_comma,
          cut-append b'=' name value e,
        )
        (rw (p.known, pair-is_pair name value n v) refl)

  type_step : next new_state (spell t s) ≡ (parse_type new_state t, none)
  unfolding next next_at matches_inline new_state
  type_step =
      let p = spell-IsSpelled t s in
      rw (cut_absent b',' (spell t s) p.no_comma, p.no_equals, p.known) refl

  pair_step : next (parse_type new_state t) (name ++ b'=' ∷ value) ≡ (complete t name value, none)
  unfolding next next_at parse_type parse_nvp set_value new_state
  pair_step = rw (contains-append_equals name value, cut-append b'=' name value e) refl

  name_step : next (parse_type new_state t) name ≡ (parse_name (parse_type new_state t) name, none)
  unfolding next next_at parse_type
  name_step = rw e refl

  value_step : next (parse_name (parse_type new_state t) name) value ≡ (complete t name value, none)
  unfolding next next_at parse_type parse_name parse_value set_value new_state
  value_step = refl

  -- A variable with its type in one argument, in two, or in three ends in the same state, with the
  -- value of that type. The name and the value are not empty and have no line feed, and the name has
  -- no equals sign.
  pub take_all_forms :
      (take_all new_state ((spell t s ++ b',' ∷ (name ++ b'=' ∷ value)) ∷ [])
        ≡ (complete t name value, none))
      × (take_all new_state (spell t s ∷ (name ++ b'=' ∷ value) ∷ [])
          ≡ (complete t name value, none))
      × (take_all new_state (spell t s ∷ name ∷ value ∷ []) ≡ (complete t name value, none))
  take_all_forms =
      let typed = λ (as' : List Bytes). take_all_step _ _ (spell t s) as' type_step in
      (
        take_all_last _ _ _ inline_form,
        typed _ ∙ take_all_last _ _ _ pair_step,
        typed _ ∙ take_all_step _ _ name (value ∷ []) name_step ∙ take_all_last _ _ _ value_step,
      )
