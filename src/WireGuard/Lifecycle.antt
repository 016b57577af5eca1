-- ===== src/WireGuard/Lifecycle.antt =====
-- uno/core/wg.py: which commands an interface ran when it started or stopped, and what it is taken
-- for then.
use mathlib.Core.Path.{subst}
use uno.VpnConfig.{WireGuardConfig}
use uno.Prelude.{
  ℕ, zero, suc, ◌⊎◌, inl, inr, wireguard_error, ◌≡◌, refl, Bool, true, false, ◌||◌, List, [], ◌∷◌,
  arith, if◌then◌else◌, Result, ok, raise, Exec, and_then, Option, none, some, Error,
}
use uno.WireGuard.{
  creating, require_all, link_up, setconf, address_add, address_flush, link_delete, link_down,
  link_add, set_mtu, generate, as_wireguard_error, required, Interface, attempted, bring_up, delete,
  create, tear_down, Command, start, stop,
}

-- The commands that create an interface, and those that bring it up.
pub create_commands : Bool → Option ℕ → List Command
create_commands true none = link_delete ∷ link_add ∷ []
create_commands true (some zero) = link_delete ∷ link_add ∷ []
create_commands true (some (suc n)) = link_delete ∷ link_add ∷ set_mtu (suc n) ∷ []
create_commands false none = link_add ∷ []
create_commands false (some zero) = link_add ∷ []
create_commands false (some (suc n)) = link_add ∷ set_mtu (suc n) ∷ []

abbrev pub up_commands : List Command
up_commands = generate ∷ link_down ∷ address_flush ∷ address_add ∷ setconf ∷ link_up ∷ []

module _ {W : Type 0} (exec_command : Command → Exec W (Unit {0})) where
  -- These commands were run, in order, and none failed.
  pub Done : List Command → W → W → Type 0
  Done [] w w' = w ≡ w'
  Done (c ∷ cs) w w' = ((exec_command c w).0 ≡ ok tt) × Done cs (exec_command c w).1 w'

  -- These commands were run, in order, up to the first that failed.
  pub Broken : List Command → W → W → Type 0
  Broken [] w w' = ⊥
  Broken (c ∷ cs) w w' =
      ((e : Error) × ((exec_command c w).0 ≡ raise e) × ((exec_command c w).1 ≡ w'))
      ⊎ (((exec_command c w).0 ≡ ok tt) × Broken cs (exec_command c w).1 w')

  -- The flags of the interface after and before.
  abbrev pub HasFlags : Bool → Bool → Interface W → Type 0
  HasFlags up created s = (s.up ≡ up) × (s.created ≡ created)

  -- Commands were run in two parts; the flags after an error in the first and in the second, and
  -- without one.
  pub Ends :
      List Command
      → List Command
      → Bool × Bool
      → Bool × Bool
      → Bool × Bool
      → W
      → Result (Unit {0}) × Interface W
      → Type 0
  Ends cs cs' first second last w (ok u, s) =
      ((w1 : W) × Done cs w w1 × Done cs' w1 s.world) × HasFlags last.0 last.1 s
  Ends cs cs' first second last w (raise e, s) =
      (e ≡ wireguard_error)
      × ((Broken cs w s.world × HasFlags first.0 first.1 s)
          ⊎ (((w1 : W) × Done cs w w1 × Broken cs' w1 s.world) × HasFlags second.0 second.1 s))

  -- One part.
  Part : List Command → Bool × Bool → Bool × Bool → W → Result (Unit {0}) × Interface W → Type 0
  Part cs failed last w (ok u, s) = Done cs w s.world × HasFlags last.0 last.1 s
  Part cs failed last w (raise e, s) =
      (e ≡ wireguard_error) × Broken cs w s.world × HasFlags failed.0 failed.1 s

  -- Two parts, one after the other.
  then-Ends :
      (cs cs' : List Command) (first second last : Bool × Bool) (w : W)
      (p : Result (Unit {0}) × Interface W) (f : Unit {0} → Exec (Interface W) (Unit {0}))
      → Part cs first second w p
      → ((s : Interface W) → HasFlags second.0 second.1 s → Part cs' second last s.world (f tt s))
      → Ends cs cs' first second last w (and_then p.0 f p.1)
  unfolding Part Ends
  then-Ends cs cs' first second last w (raise e, s) f h next = (h.0, inl (h.1, h.2))
  then-Ends cs cs' first second last w (ok u, s) f h next = go (f tt s) (next s h.1)
    where
      go :
          (q : Result (Unit {0}) × Interface W)
          → Part cs' second last s.world q
          → Ends cs cs' first second last w q
      go (ok v, s') k = ((s.world, h.0, k.0), k.1)
      go (raise e, s') k = (k.0, inr ((s.world, h.0, k.1), k.2))

  -- The flags that are set after a part that did not fail.
  finish-Part :
      (cs : List Command) (failed last : Bool × Bool) (w : W) (set : Interface W → Interface W)
      (p : Result (Unit {0}) × Interface W)
      → Part cs failed failed w p
      → ((s : Interface W) → HasFlags failed.0 failed.1 s → HasFlags last.0 last.1 (set s))
      → ((s : Interface W) → (set s).world ≡ s.world)
      → Part cs failed last w (and_then p.0 (λ _ s. (ok tt, set s)) p.1)
  unfolding Part
  finish-Part cs failed last w set (raise e, s) h flags same = h
  finish-Part cs failed last w set (ok u, s) h flags same = (rw (same s) h.0, flags s h.1)

same_flags : {a b c d : Bool} → a ≡ c → b ≡ d → ◌≡◌ {A = Bool × Bool} (a, b) (c, d)
same_flags e f = rw (e, f) refl

module _ {W : Type 0} (exec_command : Command → Exec W (Unit {0})) (link_show : W → Bool × W)
    (config : WireGuardConfig) where
  extend-Part :
      (c : Command) (cs : List Command) (flags : Bool × Bool) (w : W)
      (q : Result (Unit {0}) × Interface W)
      → (exec_command c w).0 ≡ ok tt
      → Part exec_command cs flags flags (exec_command c w).1 q
      → Part exec_command (c ∷ cs) flags flags w q
  unfolding Part Done Broken
  extend-Part c cs flags w (ok u, s) done h = ((done, h.0), h.1)
  extend-Part c cs flags w (raise e, s) done h = (h.0, inr (done, h.1), h.2)

  -- One command, and then what runs others.
  step-Part :
      (c : Command) (cs : List Command) (s : Interface W)
      (f : Unit {0} → Exec (Interface W) (Unit {0})) (r : Result (Unit {0}))
      → (exec_command c s.world).0 ≡ r
      → let s' = record s { world = (exec_command c s.world).1 } in
        Part exec_command cs (s.up, s.created) (s.up, s.created) s'.world (f tt s')
        → Part exec_command
            (c ∷ cs)
            (s.up, s.created)
            (s.up, s.created)
            s.world
            (and_then (as_wireguard_error r) f s')
  unfolding Part Broken as_wireguard_error
  step-Part c cs s f (raise e) h rest = (refl, inl (e, h, refl), (refl, refl))
  step-Part c cs s f (ok u) h rest =
      extend-Part c cs (s.up, s.created) s.world
        (f tt (record s { world = (exec_command c s.world).1 })) h rest

  require_all-Part :
      (cs : List Command) (s : Interface W)
      → Part exec_command cs
          (s.up, s.created)
          (s.up, s.created)
          s.world
          (require_all exec_command link_show config cs s)
  unfolding require_all required Part Done
  require_all-Part [] s = (refl, (refl, refl))
  require_all-Part (c ∷ cs) s =
      step-Part c cs s (λ _. require_all exec_command link_show config cs)
        (exec_command c s.world).0 refl
        (require_all-Part cs (record s { world = (exec_command c s.world).1 }))

  single-Part :
      (c : Command) (s : Interface W) (r : Result (Unit {0}))
      → (exec_command c s.world).0 ≡ r
      → Part exec_command
          (c ∷ [])
          (s.up, s.created)
          (s.up, s.created)
          s.world
          (as_wireguard_error r, record s { world = (exec_command c s.world).1 })
  unfolding Part Done Broken as_wireguard_error
  single-Part c s (raise e) h = (refl, inl (e, h, refl), (refl, refl))
  single-Part c s (ok u) h = ((h, refl), (refl, refl))

  creating-commands : (b : Bool) (mtu : Option ℕ) → creating b mtu ≡ create_commands b mtu
  unfolding creating create_commands
  creating-commands true none = refl
  creating-commands true (some zero) = refl
  creating-commands true (some (suc n)) = refl
  creating-commands false none = refl
  creating-commands false (some zero) = refl
  creating-commands false (some (suc n)) = refl

  create-Part :
      (s : Interface W)
      → Part exec_command
          (create_commands (link_show s.world).0 config.intf.mtu)
          (s.up, s.created)
          (s.up, true)
          (link_show s.world).1
          (create exec_command link_show config s)
  unfolding create
  create-Part s =
      let cs = creating (link_show s.world).0 config.intf.mtu in
      let s0 = record s { world = (link_show s.world).1 } in
      rw (← creating-commands (link_show s.world).0 config.intf.mtu) (
        finish-Part exec_command cs (s.up, s.created) (s.up, true) s0.world
          (λ s'. record s' { created = true }) (require_all exec_command link_show config cs s0)
          (require_all-Part cs s0) (λ s' flags. (flags.0, refl)) (λ s'. refl))

  bring_up-Part :
      (s : Interface W)
      → Part exec_command up_commands
          (s.up, s.created)
          (true, s.created)
          s.world
          (bring_up exec_command link_show config s)
  unfolding bring_up
  bring_up-Part s =
      finish-Part exec_command up_commands (s.up, s.created) (true, s.created) s.world
        (λ s'. record s' { up = true }) (require_all exec_command link_show config up_commands s)
        (require_all-Part up_commands s) (λ s' flags. (refl, flags.1)) (λ s'. refl)

  -- How `start` ends, if commands are to be run. It returns if no command failed: then those that
  -- create the interface were run, after the interface was deleted if it was there before, and
  -- those that bring it up, and it is taken for up and created. Otherwise it raises a
  -- WireGuardError, and nothing was run after the command that failed: if this was one of those
  -- that create the interface, it is taken for what it was, and otherwise for created too.
  pub start-Ends :
      (s : Interface W)
      → Ends exec_command
          (create_commands (link_show s.world).0 config.intf.mtu)
          up_commands
          (s.up, s.created)
          (s.up, true)
          (true, true)
          (link_show s.world).1
          (start exec_command link_show config false s)
  unfolding start
  start-Ends s =
      then-Ends exec_command (create_commands (link_show s.world).0 config.intf.mtu) up_commands
        (s.up, s.created) (s.up, true) (true, true) (link_show s.world).1
        (create exec_command link_show config s) (λ _. bring_up exec_command link_show config)
        (create-Part s)
        (λ s' flags.
          subst
            (λ p.
              Part exec_command up_commands p (true, p.1) s'.world
                (bring_up exec_command link_show config s'))
            (same_flags flags.0 flags.1) (bring_up-Part s'))

  tear_down-Part :
      (s : Interface W)
      → Part exec_command
          (link_down ∷ address_flush ∷ [])
          (s.up, s.created)
          (false, s.created)
          s.world
          (tear_down exec_command link_show config false s)
  unfolding tear_down attempted required
  tear_down-Part s =
      let s' = record s { world = (exec_command link_down s.world).1 } in
      let ran =
        step-Part link_down (address_flush ∷ []) s
          (λ _. attempted exec_command link_show config false address_flush)
          (exec_command link_down s.world).0 refl
          (single-Part address_flush s' (exec_command address_flush s'.world).0 refl) in
      finish-Part exec_command (link_down ∷ address_flush ∷ []) (s.up, s.created) (false, s.created)
        s.world (λ s'. record s' { up = false }) _ ran (λ s' flags. (refl, flags.1)) (λ s'. refl)

  delete-Part :
      (s : Interface W)
      → Part exec_command
          (link_delete ∷ [])
          (s.up, s.created)
          (s.up, false)
          s.world
          (delete exec_command link_show config false s)
  unfolding delete attempted required
  delete-Part s =
      finish-Part exec_command (link_delete ∷ []) (s.up, s.created) (s.up, false) s.world
        (λ s'. record s' { created = false }) _
        (single-Part link_delete s (exec_command link_delete s.world).0 refl)
        (λ s' flags. (flags.0, refl)) (λ s'. refl)

  stop_first :
      (u : Bool) (s : Interface W)
      → s.up ≡ u
      → Part exec_command
          (if u then link_down ∷ address_flush ∷ [] else [])
          (u, s.created)
          (false, s.created)
          s.world
          (if u || false then tear_down exec_command link_show config false s else (ok tt, s))
  unfolding Part Done
  stop_first true s e =
      subst
        (λ b.
          Part exec_command (link_down ∷ address_flush ∷ []) (b, s.created) (false, s.created)
            s.world (tear_down exec_command link_show config false s))
        e (tear_down-Part s)
  stop_first false s e = (refl, (e, refl))

  stop_second :
      (d b : Bool) (s : Interface W)
      → d ≡ b
      → HasFlags exec_command false b s
      → Part exec_command
          (if b then link_delete ∷ [] else [])
          (false, b)
          (false, false)
          s.world
          (if d || false then delete exec_command link_show config false s else (ok tt, s))
  unfolding Part Done
  stop_second true true s same flags =
      subst
        (λ p.
          Part exec_command (link_delete ∷ []) p (p.0, false) s.world
            (delete exec_command link_show config false s))
        (same_flags flags.0 flags.1) (delete-Part s)
  stop_second false false s same flags = (refl, flags)
  stop_second true false s same flags = cc
  stop_second false true s same flags = cc

  -- `stop` with `assert_stopped` runs all three commands, whatever they do, and returns.
  stop_asserted :
      (s : Interface W)
      → let run = stop exec_command link_show config true s in
        let w1 = (exec_command link_down s.world).1 in
        let w2 = (exec_command address_flush w1).1 in
        (run.0 ≡ ok tt)
        × HasFlags exec_command false false run.1
        × (run.1.world ≡ (exec_command link_delete w2).1)
  unfolding stop tear_down delete attempted required as_wireguard_error
  stop_asserted s = (ground arith, (ground arith, ground arith), ground arith)

  -- How `stop` ends. Without `assert_stopped`, it runs the commands that tear down an interface that
  -- is up, and then that which deletes one that was created. It returns if none failed, and the
  -- interface is taken for neither up nor created. Otherwise it raises a WireGuardError, and
  -- nothing was run after the command that failed: the interface is taken for created if it was,
  -- and for up if it was and the command was not that which deletes it. With `assert_stopped`, it
  -- runs all three commands, whether they fail or not, and returns, and the interface is taken for
  -- neither up nor created.
  pub stop-Ends :
      (s : Interface W)
      → let asserted = stop exec_command link_show config true s in
        let w1 = (exec_command link_down s.world).1 in
        let w2 = (exec_command address_flush w1).1 in
        Ends exec_command
          (if s.up then link_down ∷ address_flush ∷ [] else [])
          (if s.created then link_delete ∷ [] else [])
          (s.up, s.created)
          (false, s.created)
          (false, false)
          s.world
          (stop exec_command link_show config false s)
        × ((asserted.0 ≡ ok tt)
            × HasFlags exec_command false false asserted.1
            × (asserted.1.world ≡ (exec_command link_delete w2).1))
  stop-Ends s = (
    unfold stop in
        then-Ends exec_command (if s.up then link_down ∷ address_flush ∷ [] else [])
          (if s.created then link_delete ∷ [] else []) (s.up, s.created) (false, s.created)
          (false, false) s.world
          (if s.up || false then tear_down exec_command link_show config false s else (ok tt, s))
          (λ _ s'.
            if s'.created || false
            then delete exec_command link_show config false s'
            else (ok tt, s'))
          (stop_first s.up s refl) (λ s' flags. stop_second s'.created s.created s' flags.1 flags),
    stop_asserted s,
  )
