-- ===== src/Server/Reload.antt =====
-- httpserver/reloadable_handler.go: a handler that is built on first use, and again after each
-- `Invalidate`. The function that builds it is the caller's: each call that the code makes of it is
-- given its outcome. A handler that the caller supplies is a value of `H`.
pub mod Once
pub mod Interleaved
use joe_cli_http.Prelude.{
  ℕ, Bool, true, false, List, [], ◌∷◌, Option, none, some, ◌+◌, if◌then◌else◌,
}

-- What the field `handler` holds: what the function built, or `serviceUnavailable`.
pub data Handler (H : Type 0) : Type 0 where
  built : H → Handler H
  unavailable : Handler H

-- What the function returns: a handler, the nil handler with no error, or an error.
pub data Built (H : Type 0) : Type 0 where
  ready : H → Built H
  ready_nil : Built H
  failed : ℕ → Built H

-- `reloadableHandler`, with the number of calls of the function so far. `done` is the state of the
-- `sync.Once`.
pub record Reloadable (H : Type 0) : Type 0 where
  pub handler : Option (Handler H)
  pub done : Bool
  pub last_error : Option ℕ
  pub calls : ℕ

-- `NewReloadableHandler`
unfoldable pub new_reloadable : (H : Type 0) → Reloadable H
new_reloadable H = record { handler = none; done = false; last_error = none; calls = 0 }

module _ {H : Type 0} where
  -- The function that `once.Do` runs.
  unfoldable pub run_once : Reloadable H → Built H → Reloadable H
  run_once h (ready a) = record h { handler = some (built a); calls = h.calls + 1 }
  run_once h ready_nil = record h { handler = none; calls = h.calls + 1 }
  run_once h (failed e) = record h {
    handler = some unavailable;
    last_error = some e;
    calls = h.calls + 1;
  }

  -- `if h.handler == nil`, behind `once.Do`.
  fall_back : Option (Handler H) → Handler H
  fall_back none = unavailable
  fall_back (some a) = a

  -- The part of `ensureHandler` that holds the lock.
  unfoldable pub ensure_locked : Reloadable H → Built H → Reloadable H × Handler H
  unfolding run_once fall_back
  ensure_locked h b =
      let g = if h.done then h else record (run_once h b) { done = true } in
      (record g { handler = some (fall_back g.handler) }, fall_back g.handler)

  -- `ensureHandler`, with nothing in between.
  unfoldable pub ensure_handler : Reloadable H → Built H → Reloadable H × Handler H
  unfolding ensure_locked
  ensure_handler h b = elim h.handler [ some a ↦ (h, a) | none ↦ ensure_locked h b ]

  -- `Invalidate`
  unfoldable pub invalidate : Reloadable H → Reloadable H
  invalidate h = record h { handler = none; done = false }
