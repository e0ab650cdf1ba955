-- ===== src/Client/Fetch/Stops.antt =====
-- How far `Do` gets.
use joe_cli_http.Prelude.{
  ℕ, suc, List, [], ◌∷◌, Option, none, some, Bytes, ◌≡◌, refl, arith, ap, ◌∙◌, Option-cases, inl,
  inr, ◌≤◌, ◌<◌, ◌+◌, length, length-append, All, Outcome, ok, err, panics,
}
use joe_cli_http.Client.Middleware.{Handler}
use joe_cli_http.Client.Middleware.Chain.{
  Func, present, run_in_order, composite_handle-run_in_order,
}
use joe_cli_http.Client.Auth
use joe_cli_http.Client.Auth.{Credential}
use joe_cli_http.Client.Fetch.{
  Client, Request, Fault, failed, panicked, Location, Multi, Failure, Event, prepared_by,
  generate_middleware, send, send_prepared, do_one, do_at, do_all, at_url, setup_body_content,
  setup_query_string, process_auth, on_requests, own_middleware, auth_ending,
}

-- A function that sends nothing.
abbrev IsQuiet : Handler Client Fault → Type 0
IsQuiet f = (c : Client) → (f c).0.sent ≡ c.sent

run_in_order-IsQuiet :
    (fs : List (Handler Client Fault)) → All IsQuiet fs → IsQuiet (run_in_order fs)
run_in_order-IsQuiet [] h c = refl
run_in_order-IsQuiet (f ∷ fs) h c = ground (arith, h.0 c, run_in_order-IsQuiet fs h.1 (f c).0)

on_requests-IsQuiet : (fs : List (Func Request Fault)) → All IsQuiet (present (on_requests fs))
on_requests-IsQuiet [] = tt
on_requests-IsQuiet (none ∷ fs) = on_requests-IsQuiet fs
on_requests-IsQuiet (some none ∷ fs) = on_requests-IsQuiet fs
on_requests-IsQuiet (some (some f) ∷ fs) = (λ c. refl, on_requests-IsQuiet fs)

setup_body_content-IsQuiet :
    (marshal : Option (List (Bytes × Bytes)) → Bytes) → IsQuiet (setup_body_content marshal)
unfolding setup_body_content
setup_body_content-IsQuiet marshal c = ground arith

auth_ending-sent :
    (o : Outcome Auth.Error (List Credential)) (c : Client) → (auth_ending o c).0.sent ≡ c.sent
auth_ending-sent (ok credentials) c = refl
auth_ending-sent (err e) c = refl
auth_ending-sent panics c = refl

process_auth-IsQuiet : IsQuiet process_auth
unfolding process_auth
process_auth-IsQuiet c = auth_ending-sent _ _

-- At most one request more.
abbrev SendsOne : Client → Client × List Event × Option Failure → Type 0
SendsOne c r =
    (length r.0.sent ≤ length c.sent + 1) × (r.2 ≡ none → length r.0.sent ≡ length c.sent + 1)

send-SendsOne : (c : Client) (l : Location) → SendsOne c (send c l)
unfolding send
send-SendsOne c l = ground (arith, length-append c.sent (c.request ∷ []))

send_prepared-SendsOne :
    (c : Client) (r : Client × Option Fault) (l : Location)
    → r.0.sent ≡ c.sent
    → SendsOne c (send_prepared r l)
unfolding send_prepared
send_prepared-SendsOne c (d, none) l e = ground (arith, send-SendsOne d l)
send_prepared-SendsOne c (d, some (failed x)) l e = ground (arith, send-SendsOne d l)
send_prepared-SendsOne c (d, some panicked) l e = ground arith

own-IsQuiet :
    (o : Option (Handler Request Fault)) (fs : List (Func Client Fault))
    → All IsQuiet (present fs)
    → All IsQuiet (present (own_middleware o ∷ fs))
own-IsQuiet none fs h = h
own-IsQuiet (some f) fs h = (λ c. refl, h)

-- How many of `m` locations have a response, and how many requests were sent from the first `k` on.
abbrev pub Reached : Option Failure → ℕ → ℕ → ℕ → ℕ → Type 0
Reached none m n k sent = (n ≡ m) × (sent ≡ k + m)
Reached (some e) m n k sent = (n < m) × (sent ≤ k + n + 1)

Reached-suc :
    (o : Option Failure) (m n k sent : ℕ)
    → Reached o m n (k + 1) sent
    → Reached o (suc m) (suc n) k sent
Reached-suc none m n k sent h = omega arith
Reached-suc (some e) m n k sent h = omega arith

module _ (marshal : Option (List (Bytes × Bytes)) → Bytes)
    (middleware : List (Func Request Fault)) where
  prepared_by-IsQuiet : (l : Location) → All IsQuiet (present (prepared_by marshal middleware l))
  unfolding prepared_by setup_query_string
  prepared_by-IsQuiet l = own-IsQuiet l.own _ (
    setup_body_content-IsQuiet marshal,
    (λ c. refl, (process_auth-IsQuiet, on_requests-IsQuiet middleware)),
  )

  do_at-SendsOne :
      (c : Client) (l : Location) (o : Option (Bytes × Multi))
      → SendsOne c (do_at marshal middleware c l o)
  unfolding do_at generate_middleware
  do_at-SendsOne c l none = (omega arith, λ e. cc)
  do_at-SendsOne c l (some (u, q)) =
      send_prepared-SendsOne c (generate_middleware marshal middleware l (at_url c u q) none) l (
        ap (λ (r : Client × Option Fault). r.0.sent)
          (composite_handle-run_in_order panicked (prepared_by marshal middleware l) (at_url c u q)
            none)
        ∙ run_in_order-IsQuiet _ (prepared_by-IsQuiet l) (at_url c u q))

  do_one-SendsOne : (c : Client) (l : Location) → SendsOne c (do_one marshal middleware c l)
  unfolding do_one
  do_one-SendsOne c l = do_at-SendsOne c l l.url

  -- If `Do` returns no error, it has sent one request and has one response for each location. If it
  -- returns one, it has fewer responses than there are locations, and has sent at most one request
  -- more than it has responses: it goes no further than the location that failed.
  pub do_all_stops :
      (c : Client) (ls : List Location)
      → let r = do_all marshal middleware c ls in
        Reached r.2 (length ls) r.1 (length c.sent) (length r.0.sent)
  unfolding do_all
  do_all_stops c [] = (refl, omega arith)
  do_all_stops c (l ∷ ls) = elim (Option-cases (do_one marshal middleware c l).2) [
    | inl e ↦ ground (
      arith,
      do_one-SendsOne c l,
      Reached-suc (do_all marshal middleware (do_one marshal middleware c l).0 ls).2 (length ls)
          (do_all marshal middleware (do_one marshal middleware c l).0 ls).1 (length c.sent)
          (length (do_all marshal middleware (do_one marshal middleware c l).0 ls).0.sent),
      do_all_stops (do_one marshal middleware c l).0 ls,
    )
    | inr (x, e) ↦ ground (arith, do_one-SendsOne c l)
  ]
