-- ===== src/Attractor/Loop/Judged.antt =====
-- The handling of a validation keeps the invariant of the run, or ends it with a cause.
use octopusgarden.Prelude.{
  ◌&&◌, ◌+◌, ◌++◌, [], All, All-append, Any-append_left, Any-append_right, arith, Bool-cases, Dict,
  false, fge, Float, flt, In, inl, inr, is_empty, leb, List, not, of_nat, refl, Text, true, ◌||◌, ℕ,
  ◌∷◌, ◌≡◌, ◌⊎◌,
}
use octopusgarden.Attractor.Loop.World.{Sys, World}
use octopusgarden.Attractor.Loop.State.{is_budget_exceeded, result, RunOptions, RunState}
use octopusgarden.Attractor.Loop.Validation.{
  check_limits, converge_with, keep_going, process_validation, record_feedback, record_improvement,
  record_no_improvement, record_scores, regressions_of, track_patch_regression, write_best,
}
use octopusgarden.Attractor.Loop.Ensures.{Ensures}
use octopusgarden.Attractor.Loop.Frame.{course}
use octopusgarden.Attractor.Loop.Invariant.{IsAfter, IsSound, IsTier}
use octopusgarden.Attractor.Regression.{parse_all_scenarios}

module _ {R : Type 0} ⦃F : Float R⦄ where
  check_limits-IsAfter :
      (opts : RunOptions R) (iter : ℕ) (t : RunState R)
      → IsSound opts (course t)
      → IsAfter opts iter (check_limits iter t) t
  unfolding check_limits result
  check_limits-IsAfter opts iter t h = elim (Bool-cases (leb t.opts.stall_limit t.stall_count)) [
    | inl e ↦ rw e (record {
      same_opts = h.same_opts;
      tier = h.tier;
      at_iteration = refl;
      best = refl;
      cost = refl;
      cause = ground (arith, h.same_opts);
    })
    | inr e ↦ elim (Bool-cases (is_budget_exceeded t)) [
      | inl over ↦
          rw (e, over)
            (record {
              same_opts = h.same_opts;
              tier = h.tier;
              at_iteration = refl;
              best = refl;
              cost = refl;
              cause = over;
            })
      | inr under ↦ rw (e, under) (h, ground (arith, h.same_opts))
    ]
  ]

  -- The scores with one more, and the best one after it.
  best_above-improved :
      (best satisfaction : R) (scores : List R)
      → flt best satisfaction ≡ true
      → All (λ x. flt best x ≡ false) scores
      → All (λ x. flt satisfaction x ≡ false) (scores ++ satisfaction ∷ [])
  best_above-improved best satisfaction [] up h = (F.lt_irrefl satisfaction, tt)
  best_above-improved best satisfaction (x ∷ scores) up (hx, h) = (
    ground (arith, F.lt_trans best satisfaction x),
    best_above-improved best satisfaction scores up h,
  )

  best_seen-improved :
      (satisfaction : R) (scores : List R) → In satisfaction (scores ++ satisfaction ∷ [])
  best_seen-improved satisfaction scores =
      Any-append_right (λ x. x ≡ satisfaction) scores (satisfaction ∷ []) (inl refl)

  -- The state after a validation that did not converge.
  abbrev improved : ℕ → R → List Text → Dict Text → RunState R → RunState R
  improved iter satisfaction failures fs s =
      record_feedback iter failures (record_improvement satisfaction fs s)

  abbrev not_improved : ℕ → R → List Text → RunState R → RunState R
  not_improved iter satisfaction failures s =
      record_feedback iter failures (record_no_improvement satisfaction s)

  -- The state with a new score, as `record_scores` leaves it.
  abbrev scored : ℕ → R → List Text → RunState R → RunState R
  scored iter satisfaction failures s =
      record_scores iter satisfaction (parse_all_scenarios failures)
        (regressions_of iter failures s) s

  improved-IsSound :
      (opts : RunOptions R) (iter : ℕ) (satisfaction : R) (failures : List Text) (fs : Dict Text)
      (s : RunState R)
      → flt s.best_satisfaction satisfaction ≡ true
      → IsSound opts (course s)
      → IsSound opts
          (course (improved iter satisfaction failures fs (scored iter satisfaction failures s)))
  unfolding record_feedback record_improvement record_scores
  improved-IsSound opts iter satisfaction failures fs s up h = record {
    same_opts = h.same_opts;
    best_above =
        best_above-improved s.best_satisfaction satisfaction s.score_history up h.best_above;
    best_seen = inr (best_seen-improved satisfaction s.score_history);
    patch_count = λ e. omega arith;
    patch_allowed = h.patch_allowed;
    tier = h.tier;
  }

  track-IsSound :
      (opts : RunOptions R) (satisfaction : R) (s : RunState R)
      → IsSound opts (course s)
      → IsSound opts (course (track_patch_regression satisfaction s))
  unfolding track_patch_regression
  track-IsSound opts satisfaction s h =
      elim (Bool-cases (not s.patch_active || fge satisfaction s.best_satisfaction)) [
        | inl e ↦ rw e h
        | inr e ↦ rw e (record {
          same_opts = h.same_opts;
          best_above = h.best_above;
          best_seen = h.best_seen;
          patch_count = λ k. ground arith;
          patch_allowed = λ k. h.patch_allowed (ground arith);
          tier = h.tier;
        })
      ]

  seen-appended :
      (best : R) (scores : List R) (satisfaction : R)
      → (best ≡ of_nat 0) ⊎ In best scores
      → (best ≡ of_nat 0) ⊎ In best (scores ++ satisfaction ∷ [])
  seen-appended best scores satisfaction (inl h) = inl h
  seen-appended best scores satisfaction (inr h) =
      inr (Any-append_left (λ x. x ≡ best) scores (satisfaction ∷ []) h)

  not_improved-IsSound :
      (opts : RunOptions R) (iter : ℕ) (satisfaction : R) (failures : List Text) (s : RunState R)
      → flt s.best_satisfaction satisfaction ≡ false
      → IsSound opts (course s)
      → IsSound opts
          (course (not_improved iter satisfaction failures (scored iter satisfaction failures s)))
  unfolding record_feedback record_no_improvement record_scores
  not_improved-IsSound opts iter satisfaction failures s level h =
      track-IsSound opts satisfaction
        (record (scored iter satisfaction failures s) { stall_count = s.stall_count + 1 })
        (record {
          same_opts = h.same_opts;
          best_above =
              All-append (λ x. flt s.best_satisfaction x ≡ false) s.score_history
                (satisfaction ∷ []) h.best_above (level, tt);
          best_seen = seen-appended s.best_satisfaction s.score_history satisfaction h.best_seen;
          patch_count = h.patch_count;
          patch_allowed = h.patch_allowed;
          tier = h.tier;
        })

module _ {W R : Type 0} ⦃F : Float R⦄ (world : World W R) where
  converge-IsAfter :
      (opts : RunOptions R) (iter : ℕ) (satisfaction : R) (fs : Dict Text) (s : Sys W R)
      → fge satisfaction opts.threshold ≡ true
      → s.state.opts ≡ opts
      → IsTier opts.stratified s.state.active_tier
      → Ensures (converge_with world iter satisfaction fs s) (IsAfter opts iter)
  unfolding converge_with write_best result
  converge-IsAfter opts iter satisfaction fs s high same t =
      elim (Bool-cases (world.write_files fs s.world).0) [
        | inl e ↦ rw e (record {
          same_opts = same;
          tier = t;
          at_iteration = refl;
          best = refl;
          cost = refl;
          cause = high;
        })
        | inr e ↦ rw e tt
      ]

  keep_going-IsAfter :
      (opts : RunOptions R) (iter : ℕ) (satisfaction : R) (failures : List Text) (fs : Dict Text)
      (s : RunState R) (w : W)
      → IsSound opts (course s)
      → Ensures
          (keep_going world iter satisfaction failures fs
            (record { state = scored iter satisfaction failures s; world = w }))
          (IsAfter opts iter)
  unfolding keep_going write_best
  keep_going-IsAfter opts iter satisfaction failures fs s w h =
      elim (Bool-cases (flt (scored iter satisfaction failures s).best_satisfaction satisfaction)) [
        | inl up ↦ elim (Bool-cases (world.write_files fs w).0) [
          | inl e ↦
              rw (up, e)
                (check_limits-IsAfter opts iter _ (
                  improved-IsSound opts iter satisfaction failures fs s (unfold record_scores in up)
                    h))
          | inr e ↦ rw (up, e) tt
        ]
        | inr level ↦ rw level (
            check_limits-IsAfter opts iter _ (
              not_improved-IsSound opts iter satisfaction failures s (unfold record_scores in level)
                h))
      ]

  -- From a sound state the handling of a validation leaves a running state, or a result with its
  -- cause.
  pub process_validation-IsAfter :
      (opts : RunOptions R) (iter : ℕ) (satisfaction : R) (failures : List Text) (fs : Dict Text)
      (s : Sys W R)
      → IsSound opts (course s.state)
      → Ensures (process_validation world iter satisfaction failures fs s) (IsAfter opts iter)
  unfolding process_validation
  process_validation-IsAfter opts iter satisfaction failures fs s h =
      elim (Bool-cases (
        fge satisfaction s.state.opts.threshold
        && not (
            s.state.opts.block_on_regression
            && not (is_empty (regressions_of iter failures s.state))))) [
              | inl e ↦ rw e (
                  converge-IsAfter opts iter satisfaction fs _ (ground (arith, h.same_opts))
                    (unfold record_scores in h.same_opts) (unfold record_scores in h.tier))
              | inr e ↦
                  rw e (keep_going-IsAfter opts iter satisfaction failures fs s.state s.world h)
            ]
