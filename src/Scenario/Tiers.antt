-- ===== src/Scenario/Tiers.antt =====
-- internal/scenario/loader.go: a scenario from the bytes of its file, and its difficulty tier.
-- Reading files is left out, and of a tier that YAML gives only one that is not negative is modelled.
pub mod Laws
mod Tests
use octopusgarden.Prelude.{
  ◌+◌, ◌==◌, [], any, Bool, codes, false, Float, if◌then◌else◌, inl, inr, is_empty, leb, length,
  List, ltb, none, not, of_nat, Option, some, Text, text_eq, true, ◌||◌, ℕ, ◌∷◌, ◌⊎◌,
}
use octopusgarden.Scenario.Types.{GrpcRequest, is_some, Scenario, Step, step_type, WsRequest}

pub data LoadError : Type 0 where
  empty_scenario parse_failed missing_id : LoadError

-- What the loop over the steps counts.
pub record Complexity : Type 0 where
  pub steps_with_captures : ℕ
  pub score : ℕ
  pub types : List Text

abbrev pub bonus : Bool → ℕ
bonus false = 0
bonus true = 1

abbrev pub is_hard_type : Text → Bool
is_hard_type t =
    text_eq t (codes "browser")
    || text_eq t (codes "grpc")
    || text_eq t (codes "ws")
    || text_eq t (codes "tui")

abbrev pub has_stream : Option GrpcRequest → Bool
has_stream none = false
has_stream (some r) = is_some r.stream

abbrev pub has_receive : Option WsRequest → Bool
has_receive none = false
has_receive (some r) = is_some r.receive

-- types[t] = struct{}{}
unfoldable pub add_type : Text → List Text → List Text
add_type t types = if any (λ u. text_eq u t) types then types else t ∷ types

abbrev pub full_score : Complexity → ℕ
full_score c = if ltb 1 (length c.types) then 2 + c.score else c.score

unfoldable pub tier_of : Complexity → ℕ
tier_of c =
    if ltb 6 (full_score c) || leb 3 c.steps_with_captures
    then 3
    else if ltb 3 (full_score c) || leb 1 c.steps_with_captures
    then 2
    else 1

abbrev pub no_steps : Complexity
no_steps = record { steps_with_captures = 0; score = 0; types = [] }

module _ {R : Type 0} where
  abbrev pub step_points : Step R → ℕ
  step_points s =
      1
      + bonus (is_hard_type (step_type s))
      + bonus (has_stream s.grpc)
      + bonus (has_receive s.ws)
      + bonus (is_some s.retry)

  unfoldable pub count_step : Complexity → Step R → Complexity
  unfolding add_type
  count_step c s = record {
    steps_with_captures = bonus (not (is_empty s.capture)) + c.steps_with_captures;
    score = step_points s + c.score;
    types = add_type (step_type s) c.types;
  }

  unfoldable pub complexity : Complexity → List (Step R) → Complexity
  unfolding count_step
  complexity c [] = c
  complexity c (s ∷ steps) = complexity (count_step c s) steps

  unfoldable pub infer_tier : List (Step R) → ℕ
  unfolding tier_of complexity
  infer_tier steps = tier_of (complexity no_steps steps)

module _ {R : Type 0} ⦃F : Float R⦄ where
  abbrev pub default_weight : Option R → Option R
  default_weight none = some (of_nat 1)
  default_weight (some w) = some w

  -- The defaults that follow yaml.Unmarshal.
  unfoldable pub apply_defaults : Scenario R → Scenario R
  unfolding infer_tier
  apply_defaults s = record {
    id = s.id;
    description = s.description;
    kind = s.kind;
    weight = default_weight s.weight;
    component = s.component;
    tier = if s.tier == 0 then infer_tier s.steps else s.tier;
    setup = s.setup;
    steps = s.steps;
    satisfaction_criteria = s.satisfaction_criteria;
  }

  unfoldable pub check_id : Option (Scenario R) → LoadError ⊎ Scenario R
  unfolding apply_defaults
  check_id none = inl parse_failed
  check_id (some s) = if is_empty s.id then inl missing_id else inr (apply_defaults s)

  -- `unmarshal` is yaml.Unmarshal, with `none` for its error.
  unfoldable pub parse_scenario :
      (unmarshal : Text → Option (Scenario R)) → Text → LoadError ⊎ Scenario R
  unfolding check_id
  parse_scenario unmarshal content =
      if is_empty content then inl empty_scenario else check_id (unmarshal content)
