-- ===== src/Scenario/Execution/Retries.antt =====
-- Which execution a retry returns, and how many there are.
use octopusgarden.Prelude.{
  ◌+◌, ◌<◌, arith, Bool, Dict, false, inl, inr, none, Option, refl, some, suc, sym, Text, true,
  zero, ℕ, ◌∙◌, ◌≡◌, ◌≤◌, ◌⊎◌,
}
use octopusgarden.Scenario.Types.{Retry, Step}
use octopusgarden.Scenario.Execution.{
  attempts_left, Env, execute, execute_with_retry, Executor, Outcome, parse_step_timeout, paused,
  retried, retry_context, retry_loop, retry_with,
}

module _ {W Failure : Type 0} where
  abbrev pub HasSucceeded : Outcome W Failure → Type 0
  HasSucceeded o = o.0.1 ≡ none

  retried-again :
      (pause : W → Bool × W) (again : W → Outcome W Failure) (o : Outcome W Failure)
      → ¬ HasSucceeded o
      → ((w : W) → (pause w).0 ≡ true)
      → retried pause again o ≡ again (pause o.1).1
  unfolding retried paused
  retried-again pause again ((output, none), w) failed fires = absurd (failed refl)
  retried-again pause again ((output, some e), w) failed fires = fired (pause w) (fires w)
    where
      fired : (p : Bool × W) → p.0 ≡ true → paused output again p ≡ again p.1
      fired (true, v) h = refl
      fired (false, v) h = cc

  retried-succeeded :
      (pause : W → Bool × W) (again : W → Outcome W Failure) (o : Outcome W Failure)
      → HasSucceeded o
      → retried pause again o ≡ o
  unfolding retried
  retried-succeeded pause again ((output, none), w) h = refl
  retried-succeeded pause again ((output, some e), w) h = cc

  module _ (attempt : W → Outcome W Failure) (pause : W → Bool × W) where
    -- The world that the attempt with the index k starts in, when every attempt before it failed.
    abbrev pub before : (k : ℕ) → W → W
    before zero w = w
    before (suc k) w = before k (pause (attempt w).1).1

    -- When no pause is cut short, a retry that may go on for `left` attempts after the first gives
    -- what its attempt k gives, k being the first that succeeds or, when none does, the last.
    pub retry_loop-before :
        (left k : ℕ) (w : W)
        → k ≤ left
        → ((v : W) → (pause v).0 ≡ true)
        → ((j : ℕ) → j < k → ¬ HasSucceeded (attempt (before j w)))
        → HasSucceeded (attempt (before k w)) ⊎ (k ≡ left)
        → retry_loop left attempt pause w ≡ attempt (before k w)
    unfolding retry_loop
    retry_loop-before zero zero w le fires failed h = refl
    retry_loop-before zero (suc k) w le fires failed h = absurd (omega arith)
    retry_loop-before (suc left) zero w le fires failed (inl h) =
        retried-succeeded pause (retry_loop left attempt pause) (attempt w) h
    retry_loop-before (suc left) zero w le fires failed (inr h) = absurd (omega (arith, h))
    retry_loop-before (suc left) (suc k) w le fires failed h =
        retried-again pause (retry_loop left attempt pause) (attempt w) (failed 0 (omega arith))
          fires
        ∙ retry_loop-before left k (pause (attempt w).1).1 (omega arith) fires
            (λ j lt. failed (suc j) (omega arith))
            (elim h [ inl s ↦ inl s | inr e ↦ inr (omega (arith, e)) ])

    module _ (count : W → ℕ) (attempt-count : (w : W) → count (attempt w).1 ≤ suc (count w))
        (pause-count : (w : W) → count (pause w).1 ≡ count w) where
      retried-count :
          (again : W → Outcome W Failure) (n : ℕ) (o : Outcome W Failure)
          → ((w : W) → count (again w).1 ≤ count w + n)
          → count (retried pause again o).1 ≤ count o.1 + n
      unfolding retried paused
      retried-count again n ((output, none), w) h = omega arith
      retried-count again n ((output, some e), w) h = fired (pause w) (pause-count w)
        where
          fired :
              (p : Bool × W) → count p.1 ≡ count w → count (paused output again p).1 ≤ count w + n
          fired (true, v) same = omega (arith, h v, same)
          fired (false, v) same = omega (arith, same)

      retry_loop-count :
          (left : ℕ) (w : W) → count (retry_loop left attempt pause w).1 ≤ count w + suc left
      unfolding retry_loop
      retry_loop-count zero w = omega (arith, attempt-count w)
      retry_loop-count (suc left) w = omega (
        arith,
        attempt-count w,
        retried-count (retry_loop left attempt pause) (suc left) (attempt w)
            (λ v. retry_loop-count left v),
      )

-- The configured number of attempts, or 3 if none is configured.
abbrev pub attempts_or_default : ℕ → ℕ
attempts_or_default zero = 3
attempts_or_default (suc n) = suc n

attempts_left-one_less : (n : ℕ) → suc (attempts_left n) ≡ attempts_or_default n
attempts_left-one_less zero = refl
attempts_left-one_less (suc n) = refl

module _ {W C D R Failure : Type 0} (env : Env W C D R Failure) where
  -- When each execution raises a count of executions by at most one, and a pause leaves it alone, a
  -- step with a retry is executed no more often than the attempts that are configured, or 3 times.
  pub execute_with_retry-count :
      (count : W → ℕ) (executor : Executor W C R Failure) (step : Step R) (vars : Dict Text)
      → ((c : C) (v : W) → count (executor c step vars v).1 ≤ suc (count v))
      → ((c : C) (d : D) (v : W) → count (env.wait c d v).1 ≡ count v)
      → (ctx : C) (retry : Retry) (w : W)
      → count (execute_with_retry env ctx executor step vars retry w).1
        ≤ count w + attempts_or_default retry.attempts
  unfolding execute_with_retry retry_with execute
  execute_with_retry-count count executor step vars executes pauses ctx retry w =
      bounded (parse_step_timeout env retry.interval env.default_retry_interval)
        (retry_context env ctx retry.timeout w)
    where
      bounded :
          (interval : Option D) (exec_ctx : Option C)
          → count
              (retry_with env interval exec_ctx
                (attempts_left retry.attempts)
                executor
                step
                vars
                w).1
            ≤ count w + attempts_or_default retry.attempts
      bounded none exec_ctx = omega arith
      bounded (some interval) none = omega arith
      bounded (some interval) (some c) = rw (sym (attempts_left-one_less retry.attempts)) (
          retry_loop-count (execute env executor c step vars) (env.wait c interval) count
            (λ v. executed v) (λ v. pauses c interval v) (attempts_left retry.attempts) w)
        where
          executed : (v : W) → count (execute env executor c step vars v).1 ≤ suc (count v)
          executed v = executes c v
