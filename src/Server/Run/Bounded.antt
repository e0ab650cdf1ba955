-- ===== src/Server/Run/Bounded.antt =====
-- How long a run of the server's command takes, and where it stops.
use joe_cli_http.Prelude.{
  Bytes, ℕ, Bool, true, false, List, [], ◌∷◌, Option, none, some, ◌≡◌, ◌⊎◌, refl, ◌+◌, ◌≤◌, ◌<◌,
  arith, inl, inr, length, Bool-cases, Option-cases,
}
use joe_cli_http.Server.Mux.{Server, listen}
use joe_cli_http.Server.Mux
use joe_cli_http.Server.Ready.{ReadyFunc}
use joe_cli_http.Server.Run.{
  Failure, Main, selecting, waiting, returned, Thunk, starting, serving, ended, sending, Readying,
  not_started, running, Run, Answers, after_listen, after_serve, Step, listens, serves, sends,
  expires, cancels, starts_ready, receives, readies, wakes, Reach, start, later,
}
use joe_cli_http.Server.Run.Outcomes.{Reach-Inv}

abbrev main_left : Main → ℕ
main_left selecting = 2
main_left waiting = 1
main_left (returned r) = 0

abbrev thunk_left : Thunk → ℕ
thunk_left starting = 3
thunk_left serving = 2
thunk_left (sending e) = 1
thunk_left (ended o) = 0

abbrev unset : Bool → ℕ
unset true = 0
unset false = 1

abbrev pub IsReturned : Main → Type 0
IsReturned (returned r) = Unit
IsReturned _ = ⊥

after_listen_left : (o : Option Mux.Error) → thunk_left (after_listen o) < 3
after_listen_left none = omega arith
after_listen_left (some e) = omega arith

after_serve_left : (r : Option Bytes) → thunk_left (after_serve r) < 2
after_serve_left none = omega arith
after_serve_left (some e) = omega arith

-- The goroutine of the server has ended, or `Serve` never returns.
abbrev pub IsOver : Answers → Thunk → Type 0
IsOver a (ended o) = Unit
IsOver a serving = a.serve ≡ none
IsOver a _ = ⊥

both : {P Q R : Type 0} → P ⊎ Q → P ⊎ R → P ⊎ (Q × R)
both (inl p) r = inl p
both (inr q) (inl p) = inl p
both (inr q) (inr r) = inr (q, r)

module _ {H : Type 0} where
  abbrev ready_left : List (ReadyFunc H) → Readying H → ℕ
  ready_left fs not_started = length fs
  ready_left fs (running rest) = length rest

module _ {H : Type 0} (show : Failure → Bytes) (fs : List (ReadyFunc H)) (answers : Answers) where
  -- The steps that a run has left
  abbrev steps_left : Run H → ℕ
  steps_left s =
      main_left s.main
      + thunk_left s.thunk
      + ready_left fs s.readying
      + unset s.timed_out
      + unset s.cancelled

  Step-steps_left :
      {s t : Run H}
      → Step show fs answers s t
      → (s.main ≡ selecting → s.readying ≡ not_started)
      → steps_left t < steps_left s
  Step-steps_left {s} (listens p) h =
      rw p (omega (arith, after_listen_left (listen s.server answers.factory answers.bound).1))
  Step-steps_left (serves r p a) h = rw p (omega (arith, after_serve_left r))
  Step-steps_left (sends e p q) h = rw p (omega arith)
  Step-steps_left (expires p) h = rw p (omega arith)
  Step-steps_left (cancels p) h = rw p (omega arith)
  Step-steps_left {s} (starts_ready p q) h = rw (p, h p) (omega arith)
  Step-steps_left (receives e p q) h = rw p (omega arith)
  Step-steps_left (readies f rest p) h = rw p (omega arith)
  Step-steps_left (wakes p q) h = rw p (omega arith)

  Reach-selecting :
      {server : Server H} {n : ℕ} {s : Run H}
      → Reach show fs answers server n s
      → s.main ≡ selecting
      → s.readying ≡ not_started
  Reach-selecting r p = rw p at (Reach-Inv show fs answers r).phase

  Reach-steps_left :
      {server : Server H} {n : ℕ} {s : Run H}
      → Reach show fs answers server n s
      → n + steps_left s ≤ 7 + length fs
  Reach-steps_left start = omega arith
  Reach-steps_left (later r st) =
      omega (arith, Step-steps_left st (Reach-selecting r), Reach-steps_left r)

  abbrev CanStep : Run H → Type 0
  CanStep s = (t : Run H) × Step show fs answers s t

  main_steps : (s : Run H) (m : Main) → s.main ≡ m → CanStep s ⊎ IsReturned m
  main_steps s (returned r) p = inr tt
  main_steps s waiting p = elim (Bool-cases s.cancelled) [
    | inl c ↦ inl (_, wakes p c)
    | inr c ↦ inl (_, cancels c)
  ]
  main_steps s selecting p = elim (Bool-cases s.timed_out) [
    | inl c ↦ inl (_, starts_ready p c)
    | inr c ↦ inl (_, expires c)
  ]

  -- The buffer is free when the goroutine sends.
  thunk_steps :
      (s : Run H) (th : Thunk)
      → s.thunk ≡ th
      → ((e : Failure) → s.errors ≡ some e → th ≡ ended (some e))
      → CanStep s ⊎ IsOver answers th
  thunk_steps s starting p free = inl (_, listens p)
  thunk_steps s serving p free = elim (Option-cases answers.serve) [
    | inl a ↦ inr a
    | inr (r, a) ↦ inl (_, serves r p a)
  ]
  thunk_steps s (sending e) p free = elim (Option-cases s.errors) [
    | inl a ↦ inl (_, sends e p a)
    | inr (x, a) ↦ cc (free x a)
  ]
  thunk_steps s (ended o) p free = inr tt

  ready_steps :
      (s : Run H) (q : Readying H)
      → s.readying ≡ q
      → CanStep s ⊎ ((q ≡ not_started) ⊎ (q ≡ running []))
  ready_steps s not_started p = inr (inl refl)
  ready_steps s (running []) p = inr (inr refl)
  ready_steps s (running (f ∷ rest)) p = inl (_, readies f rest p)

  -- However the goroutines of the command, the timer and the signal interleave, a run takes at most
  -- seven steps more than there are ready functions. Wherever it stands, there is a step that it can
  -- take, or the command has returned, the goroutine of the server has ended, and does not hang at
  -- the channel, unless `Serve` never returns, and the ready functions were not started, or have all
  -- run.
  pub Reach-IsReturned :
      (server : Server H) (n : ℕ) (s : Run H)
      → Reach show fs answers server n s
      → (n ≤ 7 + length fs)
        × (((t : Run H) × Step show fs answers s t)
            ⊎ (IsReturned s.main
                × (IsOver answers s.thunk
                    × ((s.readying ≡ not_started) ⊎ (s.readying ≡ running [])))))
  Reach-IsReturned server n s r = (
    omega (arith, Reach-steps_left r),
    both (main_steps s s.main refl) (
        both (thunk_steps s s.thunk refl (Reach-Inv show fs answers r).buffer)
          (ready_steps s s.readying refl)),
  )
