-- ===== src/Server/Reload/Once.antt =====
-- How often the handler is built between two invalidations, whichever requests come at once.
use joe_cli_http.Prelude.{
  ℕ, zero, List, [], ◌∷◌, none, some, ◌+◌, ◌≤◌, if◌then◌else◌, ◌≡◌, refl, arith, suc,
}
use joe_cli_http.Server.Reload.{
  Handler, built, unavailable, Built, ready, ready_nil, failed, Reloadable, new_reloadable,
  ensure_locked, ensure_handler, invalidate,
}

-- What the goroutines do to a handler, in the order in which they do it: a request makes the test of
-- `ensureHandler`, a request that found nil takes the lock, with what the function would return to
-- it, or `Invalidate` runs.
pub data Event (H : Type 0) : Type 0 where
  test : Event H
  lock : Built H → Event H
  reload : Event H

abbrev pub reloads : {H : Type 0} → List (Event H) → ℕ
reloads [] = 0
reloads (test ∷ es) = reloads es
reloads (lock b ∷ es) = reloads es
reloads (reload ∷ es) = suc (reloads es)

module _ {H : Type 0} where
  -- The number of requests that stand between the test and the lock, after one more test.
  abbrev after_test : Reloadable H → ℕ → ℕ
  after_test h waiting = elim h.handler [ none ↦ suc waiting | some a ↦ waiting ]

  -- So many requests stand between the test and the lock; without one, nobody takes the lock.
  pub handle : Reloadable H → ℕ → List (Event H) → Reloadable H
  handle h waiting [] = h
  handle h waiting (test ∷ es) = handle h (after_test h waiting) es
  handle h zero (lock b ∷ es) = handle h zero es
  handle h (suc waiting) (lock b ∷ es) = handle (ensure_locked h b).0 waiting es
  handle h waiting (reload ∷ es) = handle (invalidate h) waiting es

  -- The answer to a request.
  abbrev pub answer : Built H → Handler H
  answer (ready a) = built a
  answer ready_nil = unavailable
  answer (failed e) = unavailable

  -- The calls of the function that may still come without an invalidation.
  abbrev pending : Reloadable H → ℕ
  pending h = if h.done then 0 else 1

  ensure_locked-calls :
      (h : Reloadable H) (b : Built H)
      → (ensure_locked h b).0.calls + pending (ensure_locked h b).0 ≤ h.calls + pending h
  unfolding ensure_locked
  ensure_locked-calls h b = ground arith

  invalidate-calls :
      (h : Reloadable H) → (invalidate h).calls + pending (invalidate h) ≤ h.calls + 1
  unfolding invalidate
  invalidate-calls h = omega arith

  handle-calls :
      (h : Reloadable H) (waiting : ℕ) (es : List (Event H))
      → (handle h waiting es).calls ≤ h.calls + pending h + reloads es
  unfolding handle
  handle-calls h w [] = ground arith
  handle-calls h w (test ∷ es) = handle-calls h (after_test h w) es
  handle-calls h zero (lock b ∷ es) = handle-calls h zero es
  handle-calls h (suc w) (lock b ∷ es) =
      omega (arith, ensure_locked-calls h b, handle-calls (ensure_locked h b).0 w es)
  handle-calls h w (reload ∷ es) =
      omega (arith, invalidate-calls h, handle-calls (invalidate h) w es)

  -- Whichever requests and invalidations come at once, and however the tests of the requests, their
  -- locked parts and the invalidations follow one another, the function that builds the handler is
  -- called at most once more than the handler is invalidated.
  pub handle-new-calls :
      (es : List (Event H)) → (handle (new_reloadable H) 0 es).calls ≤ suc (reloads es)
  unfolding new_reloadable
  handle-new-calls es = omega (arith, handle-calls (new_reloadable H) 0 es)

  -- Every one of some later requests is answered by `a`, and calls nothing.
  abbrev pub StaysAt : Handler H → Reloadable H → List (Built H) → Type 0
  StaysAt a h [] = Unit
  StaysAt a h (b ∷ bs) =
      ((ensure_handler h b).1 ≡ a) × ((ensure_handler h b).0 ≡ h) × StaysAt a h bs

  StaysAt-some :
      (a : Handler H) (h : Reloadable H) (bs : List (Built H)) → h.handler ≡ some a → StaysAt a h bs
  unfolding ensure_handler
  StaysAt-some a h [] e = tt
  StaysAt-some a h (b ∷ bs) e = (ground arith, ground arith, StaysAt-some a h bs e)

  -- After an invalidation the next request calls the function once; it is answered by the handler
  -- that the function returns, or by the 503 handler if the function fails, and so is every request
  -- behind it, with no further call, until the handler is invalidated again.
  pub invalidate_rebuilds :
      (h : Reloadable H) (b : Built H) (bs : List (Built H))
      → let r = ensure_handler (invalidate h) b in
        (r.1 ≡ answer b) × (r.0.calls ≡ h.calls + 1) × StaysAt (answer b) r.0 bs
  unfolding ensure_handler invalidate
  invalidate_rebuilds h (ready a) bs = (refl, refl, StaysAt-some (built a) _ bs refl)
  invalidate_rebuilds h ready_nil bs = (refl, refl, StaysAt-some unavailable _ bs refl)
  invalidate_rebuilds h (failed e) bs = (refl, refl, StaysAt-some unavailable _ bs refl)
