-- ===== src/Attractor/Loop/Invariant.antt =====
-- The invariant of a run, and what ends one.
use octopusgarden.Prelude.{
  ◌<◌, All, arith, Bool, Bool-cases, false, fge, Float, flt, In, inl, inr, leb, none, of_nat,
  Option, refl, some, true, ℕ, ◌≡◌, ◌≤◌, ◌⊎◌,
}
use octopusgarden.Attractor.Loop.State.{
  budget_exceeded, check_stalled, converged, is_budget_exceeded, max_iterations,
  max_stratified_tier, result, RunOptions, RunResult, RunState, stalled, Status,
}
use octopusgarden.Attractor.Loop.Frame.{Course, course}

-- The tier is 0 without stratified mode, and one of 1, 2, 3 with it.
abbrev pub IsTier : Bool → ℕ → Type 0
IsTier false tier = tier ≡ 0
IsTier true tier = (1 ≤ tier) × (tier ≤ max_stratified_tier)

module _ {R : Type 0} ⦃F : Float R⦄ where
  -- The best satisfaction is the largest score of the tier, or 0 before the first one; patch mode
  -- is on only if it was asked for and fewer than two regressions in a row were counted.
  pub record IsSound (opts : RunOptions R) (c : Course R) : Type 0 where
    pub same_opts : c.opts ≡ opts
    pub best_above : All (λ x. flt c.best_satisfaction x ≡ false) c.score_history
    pub best_seen : (c.best_satisfaction ≡ of_nat 0) ⊎ In c.best_satisfaction c.score_history
    pub patch_count : c.patch_active ≡ true → c.patch_regression_count < 2
    pub patch_allowed : c.patch_active ≡ true → opts.patch_mode ≡ true
    pub tier : IsTier opts.stratified c.active_tier

  abbrev pub IsRunning : RunOptions R → Course R → Type 0
  IsRunning opts c = IsSound opts c × (c.stall_count < opts.stall_limit)

  -- What a status says of the state in which the run ends.
  abbrev pub IsCause : RunOptions R → Status → RunState R → Type 0
  IsCause opts converged t = fge t.best_satisfaction opts.threshold ≡ true
  IsCause opts stalled t = opts.stall_limit ≤ t.stall_count
  IsCause opts budget_exceeded t = is_budget_exceeded t ≡ true
  IsCause opts max_iterations t = ⊥

  pub record IsEnd (opts : RunOptions R) (iter : ℕ) (r : RunResult R) (t : RunState R)
      : Type 0 where
    pub same_opts : t.opts ≡ opts
    pub tier : IsTier opts.stratified t.active_tier
    pub at_iteration : r.iterations ≡ iter
    pub best : r.satisfaction ≡ t.best_satisfaction
    pub cost : r.cost_usd ≡ t.total_cost
    pub cause : IsCause opts r.status t

  -- After an iteration: the run goes on, or ends with a result.
  abbrev pub IsAfter : RunOptions R → ℕ → Option (RunResult R) → RunState R → Type 0
  IsAfter opts iter none t = IsRunning opts (course t)
  IsAfter opts iter (some r) t = IsEnd opts iter r t

  pub check_stalled-IsAfter :
      (opts : RunOptions R) (iter : ℕ) (t : RunState R)
      → IsSound opts (course t)
      → IsAfter opts iter (check_stalled t iter) t
  unfolding check_stalled result
  check_stalled-IsAfter opts iter t h = elim (Bool-cases (leb t.opts.stall_limit t.stall_count)) [
    | inl e ↦ rw e (record {
      same_opts = h.same_opts;
      tier = h.tier;
      at_iteration = refl;
      best = refl;
      cost = refl;
      cause = ground (arith, h.same_opts);
    })
    | inr e ↦ rw e (h, ground (arith, h.same_opts))
  ]
