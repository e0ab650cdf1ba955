-- ===== src/Client/Middleware.antt =====
-- httpclient/middleware.go and httpclient/client.go: `Middleware` as a function on requests that is
-- given the next one. Go changes the request in place, so a function returns it beside the error.
-- Each piece of middleware stands for any code: the request type `R` and the errors `E` are open.
pub mod Chain
use joe_cli_http.Prelude.{ℕ, List, [], ◌∷◌, Option, none, some, zero, suc, get_elem?, length}

-- `func(*http.Request) error`
abbrev pub Handler : Type 0 → Type 0 → Type 0
Handler R E = R → R × Option E

-- `Middleware.Handle`; `next` may be nil.
abbrev pub Middleware : Type 0 → Type 0 → Type 0
Middleware R E = R → Option (Handler R E) → R × Option E

module _ {R E : Type 0} where
  -- `MiddlewareFunc.Handle`, of a function that may be nil. `panic` stands for the panic of a nil
  -- `next`, which only a nil function calls.
  unfoldable pub func_handle : E → Option (Handler R E) → Middleware R E
  func_handle panic none req next = elim next [ none ↦ (req, some panic) | some k ↦ k req ]
  func_handle panic (some f) req next =
      let (r, e) = f req in
      elim e [ some x ↦ (r, some x) | none ↦ elim next [ none ↦ (r, none) | some k ↦ k r ] ]

  -- `emptyMiddlewareImpl`
  abbrev pub empty_middleware : R → R × Option E
  empty_middleware req = (req, none)

  -- The loop of `ComposeMiddleware`.
  unfoldable pub compose_middleware : List (Option (Middleware R E)) → List (Middleware R E)
  compose_middleware [] = []
  compose_middleware (none ∷ ms) = compose_middleware ms
  compose_middleware (some m ∷ ms) = m ∷ compose_middleware ms

  -- `yielderThunk(i)` of `compositeMiddleware.Handle`, and the function that is stored at `i`. The
  -- fuel is the number of indices from `i` on.
  unfoldable pub yielder : List (Middleware R E) → ℕ → ℕ → Handler R E
  yielder c zero i = empty_middleware
  yielder c (suc fuel) i = elim (get_elem? c i) [
    | none ↦ empty_middleware
    | some m ↦ λ r. m r (some (yielder c fuel (suc i)))
  ]

  -- `compositeMiddleware.Handle`, which never calls the `next` that it is given.
  unfoldable pub composite_handle : List (Middleware R E) → Middleware R E
  unfolding yielder
  composite_handle c req next = yielder c (length c) 0 req
