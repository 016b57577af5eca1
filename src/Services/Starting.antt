-- ===== src/Services/Starting.antt =====
-- uno/agent/agent_static_service.py: what `up` and `down` of a service change.
use uno.Prelude.{ℕ, ◌≡◌, true, false, none, arith, ◌==◌, if◌then◌else◌, Error, raise}
use uno.Services.{
  Running, delegate_static, stop, write_marker, stop_static, take_over_static, down, start_static,
  Hooks, Setup, up,
}

module _ {W : Type 0} (setup : Setup) (hooks : Hooks W) where
  -- Bringing a service up concerns its own marker only.
  pub up_other :
      (svc k : ℕ) (s : Running W)
      → (svc == k) ≡ false
      → (up setup hooks svc s).1.marker k ≡ s.marker k
  unfolding up start_static take_over_static write_marker
  up_other svc k s other = ground arith

  pub up_failed :
      (svc : ℕ) (s : Running W) {e : Error}
      → (up setup hooks svc s).0 ≡ raise e
      → (up setup hooks svc s).1.marker svc ≡ none
  unfolding up start_static take_over_static write_marker
  up_failed svc s failed = ground arith

  -- A service that was torn down has no marker, whether its `_stop` raised or not; if it is not the
  -- agent, this concerns its own marker only.
  pub down_marker :
      (svc k : ℕ) (s : Running W)
      → setup.has_static svc ≡ true
      → setup.is_agent svc ≡ false
      → (down setup hooks svc s).1.marker k ≡ (if svc == k then none else s.marker k)
  unfolding down stop_static stop delegate_static
  down_marker svc k s unit other = ground arith

  pub down_self :
      (svc : ℕ) (s : Running W)
      → setup.has_static svc ≡ true
      → (down setup hooks svc s).1.marker svc ≡ none
  unfolding down stop_static stop delegate_static
  down_self svc s unit = ground arith
