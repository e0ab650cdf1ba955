-- ===== src/Client/Fetch/Prepared.antt =====
-- The request that is sent, and the middleware that has prepared it.
use joe_cli_http.Prelude.{
  List, [], ◌∷◌, ◌++◌, Option, none, some, Bytes, ◌≡◌, ◌≢◌, refl, arith, ap, ◌∙◌,
}
use mathlib.Core.List.{map}
use joe_cli_http.Client.Middleware.{Handler}
use joe_cli_http.Client.Middleware.Chain.{
  Func, present, run_in_order, composite_handle-run_in_order,
}
use joe_cli_http.Client.Fetch.{
  Client, Request, Fault, failed, panicked, Location, Multi, prepared_by, generate_middleware, send,
  send_prepared, do_one, do_at, at_url, on_request, on_requests, setup_body_content,
  setup_query_string, process_auth,
}

send-sent : (c : Client) (l : Location) → (send c l).0.sent ≡ c.sent ++ c.request ∷ []
unfolding send
send-sent c l = ground arith

send_prepared-sent :
    (r : Client × Option Fault) (l : Location)
    → r.1 ≢ some panicked
    → (send_prepared r l).0.sent ≡ r.0.sent ++ r.0.request ∷ []
unfolding send_prepared
send_prepared-sent (c, none) l n = send-sent c l
send_prepared-sent (c, some (failed e)) l n = send-sent c l
send_prepared-sent (c, some panicked) l n = absurd (n refl)

module _ (marshal : Option (List (Bytes × Bytes)) → Bytes)
    (middleware : List (Func Request Fault)) where
  -- What becomes of a request before it is sent, one stage after another: the location's own
  -- middleware if it is any, the body, the query, the authentication, and the functions of the
  -- client's middleware that are not nil; an error ends it.
  abbrev pub prepare : Option (Handler Request Fault) → Handler Client Fault
  prepare (some own) = run_in_order (
      on_request own
      ∷ setup_body_content marshal
      ∷ setup_query_string
      ∷ process_auth
      ∷ map on_request (present middleware))
  prepare none = run_in_order (
      setup_body_content marshal
      ∷ setup_query_string
      ∷ process_auth
      ∷ map on_request (present middleware))

  present-on_requests :
      (fs : List (Func Request Fault)) → present (on_requests fs) ≡ map on_request (present fs)
  present-on_requests [] = refl
  present-on_requests (none ∷ fs) = present-on_requests fs
  present-on_requests (some none ∷ fs) = present-on_requests fs
  present-on_requests (some (some f) ∷ fs) = ap (◌∷◌ (on_request f)) (present-on_requests fs)

  prepared_by-prepare :
      (l : Location) (o : Option (Handler Request Fault)) (c : Client)
      → l.own ≡ o
      → run_in_order (present (prepared_by marshal middleware l)) c ≡ prepare o c
  unfolding prepared_by
  prepared_by-prepare l none c e = rw (e, present-on_requests middleware) refl
  prepared_by-prepare l (some own) c e = rw (e, present-on_requests middleware) refl

  generate_middleware-prepare :
      (l : Location) (c : Client)
      → generate_middleware marshal middleware l c none ≡ prepare l.own c
  unfolding generate_middleware
  generate_middleware-prepare l c =
      composite_handle-run_in_order panicked (prepared_by marshal middleware l) c none
      ∙ prepared_by-prepare l l.own c refl

  -- Where the middleware of the location, if it has any, and of the client are `MiddlewareFunc`s,
  -- `doOne` sends the request that the location's own middleware, the body, the query, the
  -- authentication and the client's middleware leave behind, in this order, if none of them panics.
  -- If one of them returns an error, those behind it do not run, and the request is sent nevertheless.
  pub do_one-sent :
      (c : Client) (l : Location) (u : Bytes) (q : Multi)
      → l.url ≡ some (u, q)
      → let r = prepare l.own (at_url c u q) in
        r.1 ≢ some panicked → (do_one marshal middleware c l).0.sent ≡ r.0.sent ++ r.0.request ∷ []
  unfolding do_one do_at
  do_one-sent c l u q e n =
      ap (λ o. (do_at marshal middleware c l o).0.sent) e
      ∙ rw (generate_middleware-prepare l (at_url c u q)) (send_prepared-sent _ l n)
