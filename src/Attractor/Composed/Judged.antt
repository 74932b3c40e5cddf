-- ===== src/Attractor/Composed/Judged.antt =====
-- What the files of a component have behind them.
use mathlib.Core.Path.{subst}
use octopusgarden.Attractor.Composed.Component.{
  arrived, Attempt, component_budget, component_failed, component_files, component_generation,
  component_stalled, component_writing, ComponentError, ComponentLoopState, ComponentResult,
  gave_up, goes_on, judge_component, record_component_feedback, record_component_score,
  record_component_stall,
}
use octopusgarden.Prelude.{
  ◌+◌, [], ap, arith, Bool-cases, Dict, false, fge, Float, flt, inl, inr, length, length-append,
  List, none, of_nat, Option, refl, some, Text, true, ℕ, ◌∷◌, ◌≡◌, ◌≤◌, ◌⊎◌,
}
use octopusgarden.Attractor.Loop.World.{code, GenerateResponse, Validation, World}
use octopusgarden.Attractor.Composed.Serving.{Validator}
use octopusgarden.Attractor.Loop.State.{FeedbackKind, is_budget_exceeded, RunState}
use octopusgarden.Attractor.FileParse.{merge_files, parse_files, parsed}

module _ {W R : Type 0} ⦃F : Float R⦄ where
  -- The validator gave this satisfaction at some point, asked about all tiers.
  abbrev pub HasScored : Validator W R → R → Type 0
  HasScored validate x =
      (w : W) × (a : Validation R) × ((validate 0 w).0 ≡ some a) × (a.satisfaction ≡ x)

  abbrev pub IsAnswer : Validator W R → Option (Validation R) → Type 0
  IsAnswer v none = Unit
  IsAnswer v (some a) = (w : W) × ((v 0 w).0 ≡ some a) × Unit {0}

module _ {W R : Type 0} ⦃F : Float R⦄ (world : World W R) (base_files : Dict Text) where
  -- The files are those of an answer of the LLM.
  pub record IsGenerated (fs : Dict Text) : Type 0 where
    pub model : Text
    pub asked_in : W
    pub answer : GenerateResponse R
    pub is_answer : (World.generate world code model asked_in).0 ≡ some answer
    pub is_parsed : parse_files answer.content ≡ parsed fs

  -- They are on the disk, over the files of the components before.
  pub record IsProduct (fs : Dict Text) : Type 0 where
    pub is_generated : IsGenerated fs
    pub written_in : W
    pub is_written : (World.write_files world (merge_files fs base_files) written_in).0 ≡ true

  -- What an iteration gives up for: the LLM did not answer, or files of an answer were not written.
  abbrev pub IsDefeat : ComponentError → Type 0
  IsDefeat component_generation =
      (model : Text) × (w : W) × ((World.generate world code model w).0 ≡ none)
  IsDefeat component_writing =
      (fs : Dict Text) × (w : W) × IsGenerated fs
      × ((World.write_files world (merge_files fs base_files) w).0 ≡ false)
  IsDefeat component_budget = ⊥
  IsDefeat component_stalled = ⊥

  -- The best files so far, and their score.
  abbrev pub IsBest : Option (Validator W R) → R → Option (Dict Text) → Type 0
  IsBest validator score none = score ≡ of_nat 0
  IsBest none score (some fs) = ⊥
  IsBest (some v) score (some fs) = HasScored v score × (flt (of_nat 0) score ≡ true) × IsProduct fs

  -- The state of the loop of a component before iteration `iter`.
  pub record IsTried (validator : Option (Validator W R)) (iter : ℕ) (cs : ComponentLoopState R)
      : Type 0 where
    pub counted : length cs.history + 1 ≡ iter
    pub stalls : cs.stall_count ≤ length cs.history
    pub best : IsBest validator cs.best_score cs.best_files

  abbrev pub IsReached : (threshold : R) → Option (Validator W R) → Type 0
  IsReached threshold none = Unit
  IsReached threshold (some v) = (x : R) × HasScored v x × (fge x threshold ≡ true)

  abbrev pub IsValidated : (threshold : R) → Option (Validator W R) → Type 0
  IsValidated threshold none = Unit
  IsValidated threshold (some v) =
      (x : R) × HasScored v x × ((fge x threshold ≡ true) ⊎ (flt (of_nat 0) x ≡ true))

  -- What an attempt leaves before the next iteration.
  abbrev pub IsAttempt : R → Option (Validator W R) → ℕ → Attempt R → Type 0
  IsAttempt threshold validator iter (arrived fs) = IsProduct fs × IsReached threshold validator
  IsAttempt threshold validator iter (goes_on cs) = IsTried validator (iter + 1) cs
  IsAttempt threshold validator iter (gave_up e) = IsDefeat e

  abbrev pub IsComponentResult : R → Option (Validator W R) → ComponentResult → RunState R → Type 0
  IsComponentResult threshold validator (component_files fs) t =
      IsProduct fs × IsValidated threshold validator
  IsComponentResult threshold validator (component_failed component_budget) t =
      is_budget_exceeded t ≡ true
  IsComponentResult threshold validator (component_failed component_stalled) t = Unit
  IsComponentResult threshold validator (component_failed component_generation) t =
      IsDefeat component_generation
  IsComponentResult threshold validator (component_failed component_writing) t =
      IsDefeat component_writing

  -- The best score is not below 0, and a score above it is above 0.
  above_best :
      (validator : Option (Validator W R)) (score x : R) (fs : Option (Dict Text))
      → IsBest validator score fs
      → flt score x ≡ true
      → flt (of_nat 0) x ≡ true
  above_best validator score x none h above = ground (arith, h, above)
  above_best none score x (some fs) h above = absurd h
  above_best (some v) score x (some fs) h above = F.lt_trans (of_nat 0) score x h.1 above

  pub stalled-IsTried :
      (validator : Option (Validator W R)) (iter : ℕ) (kind : FeedbackKind)
      (cs : ComponentLoopState R)
      → IsTried validator iter cs
      → IsTried validator (iter + 1) (record_component_stall iter kind cs)
  unfolding record_component_stall
  stalled-IsTried validator iter kind cs h = record {
    counted = omega (arith, h.counted, length-append cs.history (_ ∷ []));
    stalls = omega (arith, h.stalls, length-append cs.history (_ ∷ []));
    best = h.best;
  }

  scored-IsBest :
      (v : Validator W R) (iter : ℕ) (fs : Dict Text) (a : Validation R) (cs : ComponentLoopState R)
      → IsProduct fs
      → IsTried (some v) iter cs
      → IsAnswer v (some a)
      → (cs' : ComponentLoopState R) × (cs' ≡ record_component_score fs a.satisfaction cs)
        × (cs'.history ≡ cs.history)
        × (cs'.stall_count ≤ cs.stall_count + 1)
        × IsBest (some v) cs'.best_score cs'.best_files
  unfolding record_component_score
  scored-IsBest v iter fs a cs product h (w, e, _) =
      elim (Bool-cases (flt cs.best_score a.satisfaction)) [
        | inl above ↦ (
          record cs { best_score = a.satisfaction; best_files = some fs; stall_count = 0 },
          rw above refl,
          refl,
          omega arith,
          (
            (w, a, e, refl),
            above_best (some v) cs.best_score a.satisfaction cs.best_files h.best above,
            product,
          ),
        )
        | inr below ↦ (
          record cs { stall_count = cs.stall_count + 1 },
          rw below refl,
          refl,
          omega arith,
          h.best,
        )
      ]

  feedback-IsTried :
      (v : Validator W R) (iter : ℕ) (failures : List Text) (cs cs' : ComponentLoopState R)
      → IsTried (some v) iter cs
      → cs'.history ≡ cs.history
      → cs'.stall_count ≤ cs.stall_count + 1
      → IsBest (some v) cs'.best_score cs'.best_files
      → IsTried (some v) (iter + 1) (record_component_feedback iter failures cs')
  unfolding record_component_feedback
  feedback-IsTried v iter failures cs cs' h same stalls best = record {
    counted = omega (arith, h.counted, ap length same, length-append cs'.history (_ ∷ []));
    stalls = omega (arith, h.stalls, stalls, ap length same, length-append cs'.history (_ ∷ []));
    best = best;
  }

  pub judge_component-IsAttempt :
      (threshold : R) (v : Validator W R) (iter : ℕ) (fs : Dict Text) (cs : ComponentLoopState R)
      (o : Option (Validation R))
      → IsProduct fs
      → IsTried (some v) iter cs
      → IsAnswer v o
      → IsAttempt threshold (some v) iter (judge_component threshold iter fs cs o)
  unfolding judge_component
  judge_component-IsAttempt threshold v iter fs cs none product h a =
      stalled-IsTried (some v) iter _ cs h
  judge_component-IsAttempt threshold v iter fs cs (some a) product h (w, e, _) =
      elim (Bool-cases (fge a.satisfaction threshold)) [
        | inl reached ↦ rw reached (product, (a.satisfaction, (w, a, e, refl), reached))
        | inr missed ↦
            let (cs', same, history, stalls, best) =
              scored-IsBest v iter fs a cs product h (w, e, tt) in
            rw missed (
              subst (λ x. IsTried (some v) (iter + 1) (record_component_feedback iter a.failures x))
                same (feedback-IsTried v iter a.failures cs cs' h history stalls best))
      ]
