-- ===== src/Attractor/Resources/Restarts.antt =====
-- The restarts that a validation asks for, on the books.
use octopusgarden.Prelude.{◌+◌, ℕ, ◌≡◌}
use octopusgarden.Attractor.Loop.World.{World}
use octopusgarden.Attractor.Loop.Restart.{
  CurrentStop, restart, Restartable, stops_container, stops_nothing,
}
use octopusgarden.Attractor.Resources.Books.{booked, Books, Counts, counts}

module _ {W R : Type 0} (world : World W R) where
  -- What a validation does with a container that it may restart: steps of its own, which start and
  -- stop nothing, and restarts, in any order and number.
  pub data Validating : Restartable (Books W) → Restartable (Books W) → Type 0 where
    starts : {r : Restartable (Books W)} → Validating r r
    steps :
        {r t : Restartable (Books W)}
        → Validating r t
        → (f : W → W)
        → Validating r (record t { world = record t.world { inner = f t.world.inner } })
    restarts :
        {r t : Restartable (Books W)} → Validating r t → Validating r (restart (booked world) t).1

-- The containers that a call of currentStop would stop.
abbrev pub held : CurrentStop → ℕ
held stops_container = 1
held stops_nothing = 0

-- Besides the container that is held, what is open is what was open before.
abbrev pub IsHeld : {W : Type 0} → Counts → Restartable (Books W) → Type 0
IsHeld c r = counts r.world ≡ record c { containers = c.containers + held r.current_stop }
