-- ===== src/Attractor/Escalation/Laws.antt =====
-- What the escalation state promises.
use mathlib.Core.Path.{ap₂}
use octopusgarden.Prelude.{
  ◌+◌, ◌<◌, ◌==◌, [], ap, arith, Bool, false, if◌then◌else◌, inr, List, refl, some, suc, Text,
  text_eq_iff, true, ℕ, ◌∙◌, ◌∷◌, ◌≡◌, ◌≢◌, ◌≤◌, ◌⊎◌,
}
use octopusgarden.Attractor.Escalation.{
  current_model, downgrade_after_improvements, escalate_after_failures, EscalationState, ModelTier,
  new_escalation_state, record_outcome, tier_frugal, tier_primary,
}

-- The contract: a tier, and the length of the streak of outcomes that speak for leaving it.
pub record Streak : Type 0 where
  pub tier : ModelTier
  pub run : ℕ

abbrev pub next_streak : ModelTier → ℕ → Bool → Streak
next_streak tier_frugal n true = record { tier = tier_frugal; run = 0 }
next_streak tier_frugal n false =
    if n + 1 == escalate_after_failures
    then record { tier = tier_primary; run = 0 }
    else record { tier = tier_frugal; run = n + 1 }
next_streak tier_primary n true =
    if n + 1 == downgrade_after_improvements
    then record { tier = tier_frugal; run = 0 }
    else record { tier = tier_primary; run = n + 1 }
next_streak tier_primary n false = record { tier = tier_primary; run = 0 }

abbrev pub streak_after : Streak → List Bool → Streak
streak_after s [] = s
streak_after s (b ∷ bs) = streak_after (next_streak s.tier s.run b) bs

abbrev pub run_of : ModelTier → EscalationState → ℕ
run_of tier_frugal e = e.consecutive_failures
run_of tier_primary e = e.consecutive_improve

abbrev pub streak_of : EscalationState → Streak
streak_of e = record { tier = e.current_tier; run = run_of e.current_tier e }

-- Outcomes recorded one after the other, the oldest first.
abbrev pub record_outcomes : EscalationState → List Bool → EscalationState
record_outcomes e [] = e
record_outcomes e (b ∷ bs) = record_outcomes (record_outcome e b) bs

-- Between two outcomes one of the counters is 0, and a tier is left before its limit is passed.
pub record IsCounted (e : EscalationState) : Type 0 where
  pub one_zero : (e.consecutive_failures ≡ 0) ⊎ (e.consecutive_improve ≡ 0)
  pub frugal_below : e.current_tier ≡ tier_frugal → e.consecutive_failures < 2
  pub primary_below : e.current_tier ≡ tier_primary → e.consecutive_improve < 5

pub record_outcome-IsCounted :
    (e : EscalationState) (b : Bool) → IsCounted e → IsCounted (record_outcome e b)
unfolding record_outcome
record_outcome-IsCounted e true h = ground arith
record_outcome-IsCounted e false h = ground arith

-- Outcomes keep the invariant of the counters: one of them is 0, and a tier is left before its
-- limit is passed.
pub record_outcomes-IsCounted :
    (e : EscalationState) (bs : List Bool) → IsCounted e → IsCounted (record_outcomes e bs)
record_outcomes-IsCounted e [] h = h
record_outcomes-IsCounted e (b ∷ bs) h =
    record_outcomes-IsCounted (record_outcome e b) bs (record_outcome-IsCounted e b h)

pub new-IsCounted :
    (frugal primary : Text) {e : EscalationState}
    → new_escalation_state frugal primary ≡ some e
    → IsCounted e
unfolding new_escalation_state
new-IsCounted frugal primary h = ground arith

streak-record_outcome :
    (e : EscalationState) (b : Bool)
    → IsCounted e
    → streak_of (record_outcome e b) ≡ next_streak e.current_tier (run_of e.current_tier e) b
unfolding record_outcome
streak-record_outcome e true h = ground arith
streak-record_outcome e false h = ground arith

streak-record_outcomes :
    (e : EscalationState) (bs : List Bool)
    → IsCounted e
    → streak_of (record_outcomes e bs) ≡ streak_after (streak_of e) bs
streak-record_outcomes e [] h = refl
streak-record_outcomes e (b ∷ bs) h =
    streak-record_outcomes (record_outcome e b) bs (record_outcome-IsCounted e b h)
    ∙ ap (λ s. streak_after s bs) (streak-record_outcome e b h)

new-streak :
    (frugal primary : Text) {e : EscalationState}
    → new_escalation_state frugal primary ≡ some e
    → streak_of e ≡ record { tier = tier_frugal; run = 0 }
unfolding new_escalation_state
new-streak frugal primary h = ground arith

-- From a new state, after any sequence of outcomes, the tier and the counter that matters in it are
-- those of the contract: the frugal tier is left exactly at the second failure in a row, the primary
-- tier exactly at the fifth improvement in a row, and every switch starts a new count.
pub record_outcomes-streak :
    (frugal primary : Text) {e : EscalationState} (bs : List Bool)
    → new_escalation_state frugal primary ≡ some e
    → streak_of (record_outcomes e bs) ≡ streak_after (record { tier = tier_frugal; run = 0 }) bs
record_outcomes-streak frugal primary {e} bs h =
    streak-record_outcomes e bs (new-IsCounted frugal primary h)
    ∙ ap (λ s. streak_after s bs) (new-streak frugal primary h)

-- The tier is the frugal one, or `n` improvements in a row are counted.
abbrev Improves : ℕ → EscalationState → Type 0
Improves n e = (e.current_tier ≡ tier_frugal) ⊎ (n ≤ e.consecutive_improve)

improved :
    (n : ℕ) (e : EscalationState) → n < 4 → Improves n e → Improves (suc n) (record_outcome e true)
unfolding record_outcome
improved n e k h = ground arith

improved_fifth :
    (e : EscalationState) → Improves 4 e → (record_outcome e true).current_tier ≡ tier_frugal
unfolding record_outcome
improved_fifth e h = ground arith

failed_twice :
    (e : EscalationState)
    → (record_outcome (record_outcome e false) false).current_tier ≡ tier_primary
unfolding record_outcome
failed_twice e = ground arith

-- From any state, two failures in a row end on the primary tier, and five improvements in a row end
-- on the frugal tier.
pub record_outcomes-tier :
    (e : EscalationState)
    → ((record_outcomes e (false ∷ false ∷ [])).current_tier ≡ tier_primary)
      × ((record_outcomes e (true ∷ true ∷ true ∷ true ∷ true ∷ [])).current_tier ≡ tier_frugal)
record_outcomes-tier e = (
  failed_twice e,
  improved_fifth _ (
      improved 3 _ (omega arith) (
        improved 2 _ (omega arith)
          (improved 1 _ (omega arith) (improved 0 e (omega arith) (inr (omega arith)))))),
)

record_outcome-models :
    (e : EscalationState) (b : Bool)
    → ((record_outcome e b).frugal_model ≡ e.frugal_model)
      × ((record_outcome e b).primary_model ≡ e.primary_model)
unfolding record_outcome
record_outcome-models e true = ground arith
record_outcome-models e false = ground arith

record_outcomes-models :
    (e : EscalationState) (bs : List Bool)
    → ((record_outcomes e bs).frugal_model ≡ e.frugal_model)
      × ((record_outcomes e bs).primary_model ≡ e.primary_model)
record_outcomes-models e [] = (refl, refl)
record_outcomes-models e (b ∷ bs) =
    ground (arith, record_outcome-models e b, record_outcomes-models (record_outcome e b) bs)

new-models :
    (frugal primary : Text) {e : EscalationState}
    → new_escalation_state frugal primary ≡ some e
    → (frugal ≢ []) × (e.frugal_model ≡ frugal) × (e.primary_model ≡ primary)
unfolding new_escalation_state
new-models frugal primary h = ground (arith, text_eq_iff frugal [])

-- The model that a tier stands for.
abbrev pub model_for : Text → Text → ModelTier → Text
model_for frugal primary tier_frugal = frugal
model_for frugal primary tier_primary = primary

current_model-for :
    (e : EscalationState)
    → current_model e ≡ model_for e.frugal_model e.primary_model e.current_tier
unfolding current_model
current_model-for e = ground arith

-- If escalation is enabled, the frugal model is not empty, and after any outcomes the model in use
-- is the given model of the current tier.
pub current_model-record_outcomes :
    (frugal primary : Text) {e : EscalationState} (bs : List Bool)
    → new_escalation_state frugal primary ≡ some e
    → (frugal ≢ [])
      × (current_model (record_outcomes e bs)
          ≡ model_for frugal primary (record_outcomes e bs).current_tier)
current_model-record_outcomes frugal primary {e} bs h =
    let (given, f, p) = new-models frugal primary h in
    let (f', p') = record_outcomes-models e bs in
    (
      given,
      current_model-for (record_outcomes e bs)
          ∙ ap₂ (λ a b. model_for a b (record_outcomes e bs).current_tier) (f' ∙ f) (p' ∙ p),
    )
