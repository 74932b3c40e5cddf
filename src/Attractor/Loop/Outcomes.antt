-- ===== src/Attractor/Loop/Outcomes.antt =====
-- What the result of a run says of the state in which the run ends.
use octopusgarden.Prelude.{
  ◌+◌, ◌<◌, ◌==◌, arith, Bool, Bool-cases, false, fge, Float, if◌then◌else◌, inl, inr, leb, none,
  not, Option, refl, some, suc, true, zero, ◌||◌, ℕ, ◌≡◌, ◌≤◌, ◌⊎◌,
}
use octopusgarden.Attractor.Loop.State.{
  budget_exceeded, converged, is_budget_exceeded, max_iterations, max_stratified_tier,
  reset_for_tier_advancement, result, RunOptions, RunResult, RunState, stalled, Status,
}
use octopusgarden.Attractor.Loop.World.{Action, Exit, Sys, World}
use octopusgarden.Attractor.Loop.Validation.{advance_tier, advance_tier_if_needed, is_converged}
use octopusgarden.Attractor.Loop.Run.{
  end_round, iterate, next_tier_or, record_escalation, run, run_from,
}
use octopusgarden.Attractor.Loop.Ensures.{chain, Ensures}
use octopusgarden.Attractor.Loop.Frame.{course}
use octopusgarden.Attractor.Loop.Invariant.{IsAfter, IsCause, IsEnd, IsRunning, IsTier}
use octopusgarden.Attractor.Loop.Steps.{iterate-IsAfter}

last_tier :
    (stratified : Bool) (tier : ℕ)
    → IsTier stratified tier
    → ((tier == 0) || leb max_stratified_tier tier) ≡ true
    → tier ≡ (if stratified then max_stratified_tier else 0)
last_tier false tier h e = h
last_tier true tier h e = ground arith

next-IsTier :
    (stratified : Bool) (tier : ℕ)
    → IsTier stratified tier
    → ((tier == 0) || leb max_stratified_tier tier) ≡ false
    → IsTier stratified (tier + 1)
next-IsTier false tier h e = ground arith
next-IsTier true tier h e = ground arith

advanced-IsTier :
    (stratified converged : Bool) (tier : ℕ)
    → IsTier stratified tier
    → (not converged || (tier == 0) || leb max_stratified_tier tier) ≡ false
    → IsTier stratified (tier + 1)
advanced-IsTier stratified true tier h e = next-IsTier stratified tier h e
advanced-IsTier stratified false tier h e = ground arith

module _ {R : Type 0} ⦃F : Float R⦄ where
  -- What a status of a finished run means. A stratified run has converged only in its last tier.
  abbrev pub Means : RunOptions R → RunResult R → RunState R → Status → Type 0
  Means opts r t converged =
      (fge r.satisfaction opts.threshold ≡ true)
      × (t.active_tier ≡ (if opts.stratified then max_stratified_tier else 0))
  Means opts r t stalled = opts.stall_limit ≤ t.stall_count
  Means opts r t budget_exceeded = is_budget_exceeded t ≡ true
  Means opts r t max_iterations = r.iterations ≡ opts.max_iterations

  pub record IsOutcome (opts : RunOptions R) (r : RunResult R) (t : RunState R) : Type 0 where
    pub in_bounds : r.iterations ≤ opts.max_iterations
    pub best : r.satisfaction ≡ t.best_satisfaction
    pub cost : r.cost_usd ≡ t.total_cost
    pub meaning : Means opts r t r.status

  abbrev pub stays : RunResult R → RunState R → Bool
  stays r t =
      not (is_converged r.status) || (t.active_tier == 0) || leb max_stratified_tier t.active_tier

  pub advance_tier_if_needed-cases :
      (r : RunResult R) (t : RunState R)
      → ((advance_tier_if_needed r t ≡ none) × (stays r t ≡ true))
        ⊎ ((advance_tier_if_needed r t ≡ some (advance_tier t)) × (stays r t ≡ false))
  unfolding advance_tier_if_needed
  advance_tier_if_needed-cases r t = go (stays r t)
    where
      go :
          (b : Bool)
          → (((if b then none else some (advance_tier t)) ≡ none) × (b ≡ true))
            ⊎ (((if b then none else some (advance_tier t)) ≡ some (advance_tier t)) × (b ≡ false))
      go true = inl (refl, refl)
      go false = inr (refl, refl)

  -- A tier above starts anew, without a best score.
  advance_tier-IsRunning :
      (opts : RunOptions R) (t : RunState R)
      → 0 < opts.stall_limit
      → t.opts ≡ opts
      → IsTier opts.stratified (t.active_tier + 1)
      → IsRunning opts (course (advance_tier t))
  unfolding advance_tier reset_for_tier_advancement
  advance_tier-IsRunning opts t positive same tier = (
    record {
      same_opts = same;
      best_above = tt;
      best_seen = inl refl;
      patch_count = λ _. omega arith;
      patch_allowed = λ e. cc;
      tier = tier;
    },
    positive,
  )

  caused-Means :
      (opts : RunOptions R) (r : RunResult R) (t : RunState R) (status : Status)
      → r.satisfaction ≡ t.best_satisfaction
      → IsTier opts.stratified t.active_tier
      → IsCause opts status t
      → (not (is_converged status) || (t.active_tier == 0) || leb max_stratified_tier t.active_tier)
        ≡ true
      → Means opts r t status
  caused-Means opts r t converged best tier cause stay =
      (rw best cause, last_tier opts.stratified t.active_tier tier stay)
  caused-Means opts r t stalled best tier cause stay = cause
  caused-Means opts r t budget_exceeded best tier cause stay = cause
  caused-Means opts r t max_iterations best tier cause stay = elim cause [ ]

  ended-IsOutcome :
      (opts : RunOptions R) (iter : ℕ) (r : RunResult R) (t : RunState R)
      → iter ≤ opts.max_iterations
      → IsEnd opts iter r t
      → stays r t ≡ true
      → IsOutcome opts r t
  ended-IsOutcome opts iter r t bound h stay = record {
    in_bounds = ground (arith, h.at_iteration);
    best = h.best;
    cost = h.cost;
    meaning = caused-Means opts r t r.status h.best h.tier h.cause stay;
  }

module _ {W R : Type 0} ⦃F : Float R⦄ (world : World W R) (opts : RunOptions R) where
  abbrev pub EndsWell : Exit W R (RunResult R) → Type 0
  EndsWell e = Ensures e (IsOutcome opts)

  end_round-EndsWell :
      (iter : ℕ) (next : Action W R (RunResult R)) (ended : Option (RunResult R)) (s : Sys W R)
      → iter ≤ opts.max_iterations
      → 0 < opts.stall_limit
      → ((t : Sys W R) → IsRunning opts (course t.state) → EndsWell (next t))
      → IsAfter opts iter ended s.state
      → EndsWell (end_round next ended s)
  unfolding end_round next_tier_or
  end_round-EndsWell iter next none s bound positive k h = k s h
  end_round-EndsWell iter next (some r) s bound positive k h =
      decided (advance_tier_if_needed r s.state) (advance_tier_if_needed-cases r s.state)
    where
      decided :
          (o : Option (RunState R))
          → ((o ≡ none) × (stays r s.state ≡ true))
            ⊎ ((o ≡ some (advance_tier s.state)) × (stays r s.state ≡ false))
          → EndsWell (next_tier_or next r o s)
      decided o (inl (e, stay)) = rw e (ended-IsOutcome opts iter r s.state bound h stay)
      decided o (inr (e, go)) = rw e (
          k _ (
            advance_tier-IsRunning opts s.state positive h.same_opts (
              advanced-IsTier opts.stratified (is_converged r.status) s.state.active_tier h.tier
                go)))

  record_escalation-IsAfter :
      (iter : ℕ) (ended : Option (RunResult R)) (t : RunState R)
      → IsAfter opts iter ended t
      → IsAfter opts iter ended (record_escalation t)
  unfolding record_escalation is_budget_exceeded
  record_escalation-IsAfter iter none t h = h
  record_escalation-IsAfter iter (some r) t h = record {
    same_opts = h.same_opts;
    tier = h.tier;
    at_iteration = h.at_iteration;
    best = h.best;
    cost = h.cost;
    cause = IsCause-record_escalation r.status h.cause;
  }
    where
      IsCause-record_escalation :
          (status : Status) → IsCause opts status t → IsCause opts status (record_escalation t)
      IsCause-record_escalation converged c = c
      IsCause-record_escalation stalled c = c
      IsCause-record_escalation budget_exceeded c = c
      IsCause-record_escalation max_iterations c = c

  pub run_from-EndsWell :
      (left iter : ℕ) (s : Sys W R)
      → 0 < opts.stall_limit
      → left + iter ≡ opts.max_iterations + 1
      → IsRunning opts (course s.state)
      → EndsWell (run_from world left iter s)
  unfolding run_from result
  run_from-EndsWell zero iter s positive count run = record {
    in_bounds = ground (arith, run.0.same_opts);
    best = refl;
    cost = refl;
    meaning = ground (arith, run.0.same_opts);
  }
  run_from-EndsWell (suc left) iter s positive count run =
      let next = run_from world left (iter + 1) in
      elim (Bool-cases (is_budget_exceeded s.state)) [
        | inl over ↦
            rw over (record { in_bounds = omega arith; best = refl; cost = refl; meaning = over })
        | inr under ↦ rw under (
            chain (IsAfter opts iter) (IsOutcome opts) (iterate world iter s) _
              (iterate-IsAfter world opts iter s run)
              (λ ended t h.
                end_round-EndsWell iter next ended _ (omega arith) positive
                  (λ u. run_from-EndsWell left (iter + 1) u positive (omega arith))
                  (record_escalation-IsAfter iter ended t.state h)))
      ]
