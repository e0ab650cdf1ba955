-- ===== src/Client/Cacheable.antt =====
-- httpclient/client.go: `cacheable`, which makes a value once. `T` is the type of the values that are
-- not zero, and `none` is the zero one. The factory is the caller's: what it would return at a call is
-- given with the call, and `calls` counts the calls that are made of it.
pub mod Once
use joe_cli_http.Prelude.{
  ℕ, Bool, true, false, List, [], ◌∷◌, Option, none, some, ◌+◌, Outcome, ok, err, panics,
}

pub record Cacheable (T E : Type 0) : Type 0 where
  pub discrete : Option T
  pub has_factory : Bool
  pub middleware : List (Option T → Option T)
  pub cached : Option T
  pub cached_err : Option E
  pub calls : ℕ

-- What the factory returns: a value, which may be zero, or an error.
pub data Made (T E : Type 0) : Type 0 where
  made : Option T → Made T E
  failed : E → Made T E

-- The loop over the middleware
unfoldable pub apply_all : {T : Type 0} → List (Option T → Option T) → Option T → Option T
apply_all [] result = result
apply_all (m ∷ ms) result = apply_all ms (m result)

module _ {T E : Type 0} where
  unfoldable pub store : Cacheable T E → Option T → Cacheable T E × Outcome E (Option T)
  store c result = let r = apply_all c.middleware result in (record c { cached = r }, ok r)

  -- The call of the factory
  unfoldable pub call_factory : Cacheable T E → Made T E → Cacheable T E × Outcome E (Option T)
  unfolding store
  call_factory c (made result) = store (record c { calls = c.calls + 1 }) result
  call_factory c (failed e) = (record c { cached_err = some e; calls = c.calls + 1 }, err e)

  -- `New` behind the tests of what is cached; a nil factory panics.
  unfoldable pub make_new : Cacheable T E → Made T E → Cacheable T E × Outcome E (Option T)
  unfolding store call_factory
  make_new c b = elim c.discrete [
    | some t ↦ store c (some t)
    | none ↦ elim c.has_factory [ true ↦ call_factory c b | false ↦ (c, panics) ]
  ]

  -- `New`
  unfoldable pub new : Cacheable T E → Made T E → Cacheable T E × Outcome E (Option T)
  unfolding make_new
  new c b = elim c.cached_err [
    | some e ↦ (c, err e)
    | none ↦ elim c.cached [ some t ↦ (c, ok (some t)) | none ↦ make_new c b ]
  ]
