-- ===== src/Client/Cacheable/Once.antt =====
-- The value is made once.
use joe_cli_http.Prelude.{none, ◌+◌, ◌≤◌, ◌≡◌, ◌≢◌, arith, ok, panics}
use joe_cli_http.Client.Cacheable.{
  Cacheable, Made, made, failed, store, call_factory, make_new, new,
}

module _ {T E : Type 0} where
  -- A call that gives an error, or a value that is not zero, settles the value: every later call gives
  -- the same, changes nothing, and calls no factory, whatever the factory would return by then. The
  -- call itself calls the factory at most once.
  pub new-new :
      (c : Cacheable T E) (b later : Made T E)
      → (new c b).1 ≢ panics
      → (new c b).1 ≢ ok none
      → (new (new c b).0 later ≡ new c b) × ((new c b).0.calls ≤ c.calls + 1)
  unfolding new make_new call_factory store
  new-new c (made r) later p n = ground arith
  new-new c (failed e) later p n = ground arith
