-- ===== src/Vars/Var/Progress.antt =====
-- Every argument that is accepted brings a variable nearer to its end.
use joe_cli_http.Prelude.{
  ℕ, List, [], ◌∷◌, Option, none, some, ◌≡◌, ◌≢◌, refl, arith, ◌≤◌, ◌-◌, length, Bytes,
}
use joe_cli_http.Vars.Var.{
  VarState, Phase, initial, saw_type, saw_name, end_state, Error, next, next_at, new_state,
  parse_inline, parse_nvp, parse_type, parse_name, parse_value, set_value,
}

-- The number of arguments that may still be read.
abbrev pub remaining : Phase → ℕ
remaining initial = 3
remaining saw_type = 2
remaining saw_name = 1
remaining end_state = 0

-- A value is there exactly at the end.
abbrev pub IsReady : VarState → Type 0
IsReady c = elim c.state [ end_state ↦ c.value ≢ none | _ ↦ c.value ≡ none ]

-- `Take` of the arguments in turn, up to one that is refused.
unfoldable pub take_all : VarState → List Bytes → VarState × Option Error
take_all c [] = (c, none)
take_all c (a ∷ as') =
    let r = next c a in
    let rest = take_all r.0 as' in elim r.1 [ none ↦ rest | some e ↦ (r.0, some e) ]

next_at-remaining :
    (p : Phase) (c : VarState) (arg : Bytes)
    → c.state ≡ p
    → (next_at p c arg).1 ≡ none
    → remaining (next_at p c arg).0.state ≤ remaining p - 1
unfolding next_at parse_inline parse_nvp parse_type parse_name parse_value set_value
next_at-remaining initial c arg e h = ground arith
next_at-remaining saw_type c arg e h = ground arith
next_at-remaining saw_name c arg e h = ground arith
next_at-remaining end_state c arg e h = rw e (omega arith)

next_at-IsReady :
    (p : Phase) (c : VarState) (arg : Bytes) → c.state ≡ p → IsReady c → IsReady (next_at p c arg).0
unfolding next_at parse_inline parse_nvp parse_type parse_name parse_value set_value
next_at-IsReady initial c arg e h = ground arith
next_at-IsReady saw_type c arg e h = ground arith
next_at-IsReady saw_name c arg e h = ground arith
next_at-IsReady end_state c arg e h = h

next-remaining :
    (c : VarState) (arg : Bytes)
    → (next c arg).1 ≡ none
    → remaining (next c arg).0.state ≤ remaining c.state - 1
unfolding next
next-remaining c arg h = next_at-remaining c.state c arg refl h

next-IsReady : (c : VarState) (arg : Bytes) → IsReady c → IsReady (next c arg).0
unfolding next
next-IsReady c arg r = next_at-IsReady c.state c arg refl r

take_all-accepted :
    (c : VarState) (a : Bytes) (as' : List Bytes)
    → (take_all c (a ∷ as')).1 ≡ none
    → ((next c a).1 ≡ none) × (take_all c (a ∷ as') ≡ take_all (next c a).0 as')
unfolding take_all
take_all-accepted c a as' h = ground arith

pub take_all_step :
    (c d : VarState) (a : Bytes) (as' : List Bytes)
    → next c a ≡ (d, none)
    → take_all c (a ∷ as') ≡ take_all d as'
unfolding take_all
take_all_step c d a as' e = ground arith

pub take_all_last :
    (c d : VarState) (a : Bytes) → next c a ≡ (d, none) → take_all c (a ∷ []) ≡ (d, none)
unfolding take_all
take_all_last c d a e = ground arith

take_all-remaining :
    (c : VarState) (args : List Bytes)
    → IsReady c
    → (take_all c args).1 ≡ none
    → (remaining (take_all c args).0.state ≤ remaining c.state - length args)
      × IsReady (take_all c args).0
take_all-remaining c [] r h = unfold take_all in (omega arith, r)
take_all-remaining c (a ∷ as') r h =
    let (e, same) = take_all-accepted c a as' h in
    let (m, r') = take_all-remaining (next c a).0 as' (next-IsReady c a r) (rw same at h) in
    rw same (omega (arith, m, next-remaining c a e), r')

ready-value :
    (p : Phase) (c : VarState)
    → c.state ≡ p
    → remaining p ≤ 0
    → IsReady c
    → (c.state ≡ end_state) × (c.value ≢ none)
ready-value end_state c e l r = ground arith
ready-value initial c e l r = absurd (omega arith)
ready-value saw_type c e l r = absurd (omega arith)
ready-value saw_name c e l r = absurd (omega arith)

-- Three arguments or more, none of which is refused, leave a variable with a value, at the end state.
pub take_all_ends :
    (args : List Bytes)
    → 3 ≤ length args
    → (take_all new_state args).1 ≡ none
    → ((take_all new_state args).0.state ≡ end_state) × ((take_all new_state args).0.value ≢ none)
unfolding new_state
take_all_ends args l h =
    let (m, r) = take_all-remaining new_state args refl h in
    ready-value _ (take_all new_state args).0 refl (omega arith) r
