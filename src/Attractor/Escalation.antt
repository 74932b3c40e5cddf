-- ===== src/Attractor/Escalation.antt =====
-- internal/attractor/escalation.go: the switch between the frugal and the primary model.
-- The logger's calls are left out. `newEscalationState` returns nil, here `none`, to disable it.
pub mod Laws
mod Tests
use octopusgarden.Prelude.{
  ◌&&◌, ◌+◌, [], Bool, false, if◌then◌else◌, leb, none, Option, some, Text, text_eq, true, ℕ,
}

pub data ModelTier : Type 0 where
  tier_frugal tier_primary : ModelTier

abbrev pub escalate_after_failures : ℕ
escalate_after_failures = 2

abbrev pub downgrade_after_improvements : ℕ
downgrade_after_improvements = 5

pub record EscalationState : Type 0 where
  pub current_tier : ModelTier
  pub consecutive_failures : ℕ
  pub consecutive_improve : ℕ
  pub frugal_model : Text  -- models[0]
  pub primary_model : Text  -- models[1]

unfoldable pub new_escalation_state : Text → Text → Option EscalationState
new_escalation_state frugal_model primary_model =
    if text_eq frugal_model []
    then none
    else some (record {
      current_tier = tier_frugal;
      consecutive_failures = 0;
      consecutive_improve = 0;
      frugal_model = frugal_model;
      primary_model = primary_model;
    })

abbrev model_of : ModelTier → EscalationState → Text
model_of tier_frugal e = e.frugal_model
model_of tier_primary e = e.primary_model

unfoldable pub current_model : EscalationState → Text
current_model e = model_of e.current_tier e

abbrev above_frugal : ModelTier → Bool
above_frugal tier_frugal = false
above_frugal tier_primary = true

abbrev below_primary : ModelTier → Bool
below_primary tier_frugal = true
below_primary tier_primary = false

record_improved : EscalationState → EscalationState
record_improved e =
    let e' = record e {
      consecutive_improve = e.consecutive_improve + 1;
      consecutive_failures = 0;
    } in
    if leb downgrade_after_improvements e'.consecutive_improve && above_frugal e'.current_tier
    then record e' { current_tier = tier_frugal; consecutive_improve = 0 }
    else e'

record_failed : EscalationState → EscalationState
record_failed e =
    let e' = record e {
      consecutive_failures = e.consecutive_failures + 1;
      consecutive_improve = 0;
    } in
    if leb escalate_after_failures e'.consecutive_failures && below_primary e'.current_tier
    then record e' { current_tier = tier_primary; consecutive_failures = 0 }
    else e'

unfoldable pub record_outcome : EscalationState → Bool → EscalationState
unfolding record_improved record_failed
record_outcome e true = record_improved e
record_outcome e false = record_failed e
