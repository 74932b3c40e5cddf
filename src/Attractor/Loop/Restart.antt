-- ===== src/Attractor/Loop/Restart.antt =====
-- The closures of startHTTPContainer in attractor.go that the validation gets: `restartFn` and the
-- `stop` of the result, with the variable `currentStop` that they share.
use octopusgarden.Prelude.{Bool, false, none, Option, some, true}
use octopusgarden.Attractor.Loop.World.{Container, World}

-- What a call of currentStop does.
pub data CurrentStop : Type 0 where
  stops_container stops_nothing : CurrentStop

pub record Restartable (W : Type 0) : Type 0 where
  pub current_stop : CurrentStop
  pub world : W

-- `currentStop := stop`
abbrev pub new_restartable : {W : Type 0} → W → Restartable W
new_restartable w = record { current_stop = stops_container; world = w }

module _ {W R : Type 0} (world : World W R) where
  unfoldable pub call_current_stop : CurrentStop → W → W
  call_current_stop stops_container w = world.stop_container w
  call_current_stop stops_nothing w = w

  -- The `stop` of the result.
  unfoldable pub stop_current : Restartable W → W
  unfolding call_current_stop
  stop_current r = call_current_stop r.current_stop r.world

  unfoldable pub restart_checked : Container → Bool × W → Option Container × Restartable W
  restart_checked c (true, w) = (some c, record { current_stop = stops_container; world = w })
  restart_checked c (false, w) =
      (none, record { current_stop = stops_nothing; world = world.stop_container w })

  unfoldable pub restart_started : Option Container × W → Option Container × Restartable W
  unfolding restart_checked
  restart_started (none, w) = (none, record { current_stop = stops_nothing; world = w })
  restart_started (some c, w) = restart_checked c (world.wait_healthy w)

  -- `none` is an error.
  unfoldable pub restart : Restartable W → Option Container × Restartable W
  unfolding restart_started stop_current
  restart r = restart_started (world.run_container (stop_current r))
