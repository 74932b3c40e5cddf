-- ===== src/Attractor/Escalation/Tests.antt =====
-- The escalation on two models.
use octopusgarden.Prelude.{[], Bool, codes, false, List, refl, some, Text, true, ◌∷◌, ◌≡◌}
use octopusgarden.Attractor.Escalation.{
  current_model, EscalationState, new_escalation_state, record_outcome, tier_frugal,
}
use octopusgarden.Attractor.Escalation.Laws.{
  record_outcomes, record_outcomes-streak, streak_after, streak_of,
}

abbrev cheap : Text
cheap = codes "haiku"

abbrev strong : Text
strong = codes "opus"

abbrev fresh : EscalationState
fresh = record {
  current_tier = tier_frugal;
  consecutive_failures = 0;
  consecutive_improve = 0;
  frugal_model = cheap;
  primary_model = strong;
}

fresh_is_new : new_escalation_state cheap strong ≡ some fresh
unfolding new_escalation_state
fresh_is_new = refl

abbrev outcomes : List Bool
outcomes = false ∷ false ∷ true ∷ true ∷ []

-- Two failures escalate, and two improvements do not lead back.
escalated_model : current_model (record_outcomes fresh outcomes) ≡ strong
unfolding record_outcome current_model
escalated_model = refl

record_outcomes-streak_example :
    streak_of (record_outcomes fresh outcomes)
    ≡ streak_after (record { tier = tier_frugal; run = 0 }) outcomes
record_outcomes-streak_example =
    record_outcomes-streak cheap strong {e = fresh} outcomes fresh_is_new
