-- ===== src/Server/Reload/Interleaved.antt =====
-- One request among others: `ensureHandler` gives the lock up between its first test and its end, and
-- reads the field once more after that. Other requests and `Invalidate` may come at each such place.
use joe_cli_http.Prelude.{
  Bool, true, false, Option, none, some, ◌≡◌, ◌≢◌, refl, arith, inl, inr, ◌∙◌, Option-cases,
}
use joe_cli_http.Server.Reload.{Handler, Built, Reloadable, ensure_locked, invalidate}

-- Where the request stands: before the test, behind a test that found a handler (`RUnlock`, and then
-- the second read), before `Lock`, or at the end, with the handler that `ServeHTTP` is called on.
pub data At (H : Type 0) : Type 0 where
  begin found waiting : At H
  served : Option (Handler H) → At H

-- A step of the request, or of another one that holds the lock, or an `Invalidate`; a run that is
-- calm has none of the last.
pub data Step {H : Type 0} (calm : Bool) (h : Reloadable H)
    : At H → Reloadable H → At H → Type 0 where
  test_found : {a : Handler H} → h.handler ≡ some a → Step calm h begin h found
  test_nil : h.handler ≡ none → Step calm h begin h waiting
  read_again : {o : Option (Handler H)} → h.handler ≡ o → Step calm h found h (served o)
  locked :
      {g : Reloadable H} {a : Handler H} (b : Built H)
      → ensure_locked h b ≡ (g, a)
      → Step calm h waiting g (served (some a))
  other :
      {at : At H} {g : Reloadable H} {a : Handler H} (b : Built H)
      → ensure_locked h b ≡ (g, a)
      → Step calm h at g at
  invalidated :
      {at : At H} {g : Reloadable H} → calm ≡ false → invalidate h ≡ g → Step calm h at g at

pub data Run {H : Type 0} (calm : Bool) (h : Reloadable H) (at : At H)
    : Reloadable H → At H → Type 0 where
  here : Run calm h at h at
  step :
      {g k : Reloadable H} {p q : At H} → Run calm h at g p → Step calm g p k q → Run calm h at k q

module _ {H : Type 0} where
  -- What a request knows of the field, as long as nothing is invalidated.
  abbrev Known : Reloadable H → At H → Type 0
  Known h begin = Unit
  Known h found = h.handler ≢ none
  Known h waiting = Unit
  Known h (served o) = o ≢ none

  ensure_locked-ne-none :
      (h : Reloadable H) (b : Built H) {g : Reloadable H} {a : Handler H}
      → ensure_locked h b ≡ (g, a)
      → g.handler ≢ none
  unfolding ensure_locked
  ensure_locked-ne-none h b e n = ground arith

  Known-set : (at : At H) (h g : Reloadable H) → g.handler ≢ none → Known h at → Known g at
  Known-set begin h g n k = tt
  Known-set found h g n k = n
  Known-set waiting h g n k = tt
  Known-set (served o) h g n k = k

  Step-Known : {h g : Reloadable H} {p q : At H} → Step true h p g q → Known h p → Known g q
  Step-Known (test_found e) k = λ n. cc
  Step-Known (test_nil e) k = tt
  Step-Known (read_again e) k = λ n. k (e ∙ n)
  Step-Known (locked b e) k = λ n. cc
  Step-Known {h} {g} {p} (other b e) k = Known-set p h g (ensure_locked-ne-none h b e) k
  Step-Known (invalidated e i) k = cc

  Run-Known :
      {h : Reloadable H} {p : At H} {g : Reloadable H} {q : At H}
      → Run true h p g q
      → Known h p
      → Known g q
  Run-Known here k = k
  Run-Known (step r s) k = Step-Known s (Run-Known r k)

  -- Whatever the other requests do, a request that no `Invalidate` comes across has a handler.
  pub calm-served :
      {h g : Reloadable H} {o : Option (Handler H)} → Run true h begin g (served o) → o ≢ none
  calm-served r = Run-Known r tt

  -- From every state with a handler there is a run in which the request is left with the nil
  -- handler, on which `ServeHTTP` panics: the `Invalidate` comes between the two reads.
  pub invalidated-served :
      (h : Reloadable H) → h.handler ≢ none → Run false h begin (invalidate h) (served none)
  unfolding invalidate
  invalidated-served h n = elim (Option-cases h.handler) [
    | inl e ↦ absurd (n e)
    | inr (a, e) ↦ step (step (step here (test_found e)) (invalidated refl refl)) (read_again refl)
  ]
