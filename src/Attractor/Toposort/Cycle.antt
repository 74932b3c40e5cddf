-- ===== src/Attractor/Toposort/Cycle.antt =====
-- Components that are not sorted wait for one another.
use mathlib.Core.Path.{subst}
use octopusgarden.Prelude.{
  ◌+◌, ◌++◌, ◌<◌, ◌==◌, ==_iff, [], All-append, Any-append_left, Any-append_right, append-nil,
  append_assoc, AreDistinct, arith, Bool, Bool-cases, eq_of_text_eq, false, if◌then◌else◌, In, inl,
  inr, length, length-append, List, suc, sym, Text, text_eq, true, zero, ℕ, ◌∷◌, ◌≡◌,
}
use octopusgarden.Attractor.Toposort.{
  Component, decrement, dependents, drain, incoming, initial_queue, kahn_names, names_of, relax,
}
use octopusgarden.Attractor.Toposort.Ordered.{All-initial_queue, IsLoop, IsLoop-next, IsLoop-start}
use octopusgarden.Attractor.Toposort.Fuel.{
  All-dependents, All-relax, AreNames, length-AreDistinct, length-names_of, names_of-AreNames,
}

-- Each name all of whose increments are taken back has been queued.
abbrev pub IsComplete : (Text → Type 0) → (degree removed : Text → ℕ) → List Text → Type 0
IsComplete Q degree removed seen = (k : Text) → Q k → removed k ≡ degree k → In k seen

relax-IsComplete :
    (Q : Text → Type 0) (degree : Text → ℕ) (ds queue : List Text) (removed : Text → ℕ)
    (finished : List Text)
    → IsComplete Q degree removed (finished ++ queue)
    → IsComplete Q degree
        (relax degree ds queue removed).1
        (finished ++ (relax degree ds queue removed).0)
unfolding relax
relax-IsComplete Q degree [] queue removed finished h = h
relax-IsComplete Q degree (d ∷ ds) queue removed finished h =
    relax-IsComplete Q degree ds _ (decrement d removed) finished (λ k q e.
      elim (Bool-cases (text_eq d k)) [
        | inl same ↦ first k (eq_of_text_eq d k same) e
        | inr other ↦ later (decrement d removed d == degree d) k (h k q (ground (arith, e, other)))
      ])
  where
    later :
        (b : Bool) (k : Text)
        → In k (finished ++ queue)
        → In k (finished ++ (if b then queue ++ d ∷ [] else queue))
    later true k there =
        subst (In k) (append_assoc finished queue (d ∷ []))
          (Any-append_left _ (finished ++ queue) (d ∷ []) there)
    later false k there = there

    queued :
        (b : Bool) (k : Text)
        → b ≡ true
        → d ≡ k
        → In k (finished ++ (if b then queue ++ d ∷ [] else queue))
    queued true k e same =
        Any-append_right _ finished (queue ++ d ∷ []) (Any-append_right _ queue (d ∷ []) (inl same))
    queued false k e same = cc

    first :
        (k : Text)
        → d ≡ k
        → decrement d removed k ≡ degree k
        → In k (finished ++ (if decrement d removed d == degree d then queue ++ d ∷ [] else queue))
    first k same e =
        queued (decrement d removed d == degree d) k
          ((==_iff (decrement d removed d) (degree d)).1
            (subst (λ x. decrement d removed x ≡ degree x) (sym same) e))
          same

module _ (cs : List Component) where
  abbrev pub Complete : (Text → ℕ) → List Text → Type 0
  Complete removed seen = IsComplete (λ k. In k (names_of cs)) (incoming cs) removed seen

  -- The loop has ended, with these names.
  abbrev pub IsFinal : List Text → Type 0
  IsFinal names =
      (removed : Text → ℕ) × IsLoop cs names ([], removed)
      × Complete removed (names ++ [])
      × AreNames cs names

  drain-IsFinal :
      (fuel : ℕ) (finished : List Text) (st : List Text × (Text → ℕ))
      → length cs < length finished + fuel
      → AreNames cs finished
      → AreNames cs st.0
      → IsLoop cs finished st
      → Complete st.1 (finished ++ st.0)
      → IsFinal (finished ++ drain fuel (incoming cs) (dependents cs) st)
  unfolding drain
  drain-IsFinal zero finished (queue, removed) enough done left (counted, full, distinct) complete =
      absurd (
        omega (
          arith,
          length-append finished queue,
          length-names_of cs cs,
          length-AreDistinct (finished ++ queue) (names_of cs) distinct
              (All-append _ finished queue done left),
        ))
  drain-IsFinal (suc fuel) finished ([], removed) enough done left h complete =
      subst IsFinal (sym (append-nil finished)) (removed, h, complete, done)
  drain-IsFinal (suc fuel) finished (p ∷ queue, removed) enough done (p_in, left) h complete =
      subst IsFinal (append_assoc finished (p ∷ []) _) (
        drain-IsFinal fuel (finished ++ p ∷ [])
          (relax (incoming cs) (dependents cs p) queue removed)
          (omega (arith, length-append finished (p ∷ [])))
          (All-append _ finished (p ∷ []) done (p_in, tt))
          (All-relax _ (incoming cs) (dependents cs p) queue removed
            (All-dependents _ cs p (names_of-AreNames cs cs (λ t k. k))) left)
          (IsLoop-next cs finished p queue removed h)
          (relax-IsComplete _ (incoming cs) (dependents cs p) queue removed (finished ++ p ∷ [])
            (subst (Complete removed) (sym (append_assoc finished (p ∷ []) queue)) complete)))

  initial_queue-Complete :
      (ds : List Component) (k : Text)
      → In k (names_of ds)
      → 0 ≡ incoming cs k
      → In k (initial_queue cs ds)
  unfolding initial_queue
  initial_queue-Complete [] k h e = absurd h
  initial_queue-Complete (d ∷ ds) k (inl same) e =
      rw ((==_iff (incoming cs d.name) 0).1 (subst (λ x. incoming cs x ≡ 0) (sym same) (sym e)))
        (inl same)
  initial_queue-Complete (d ∷ ds) k (inr h) e = elim (Bool-cases (incoming cs d.name == 0)) [
    | inl f ↦ rw f (inr (initial_queue-Complete ds k h e))
    | inr f ↦ rw f (initial_queue-Complete ds k h e)
  ]

  pub kahn_names-IsFinal : AreDistinct (names_of cs) → IsFinal (kahn_names cs)
  unfolding kahn_names
  kahn_names-IsFinal distinct =
      drain-IsFinal (suc (length cs)) [] (initial_queue cs cs, λ k. 0) (omega arith) tt
        (All-initial_queue _ cs cs (names_of-AreNames cs cs (λ t k. k))) (IsLoop-start cs distinct)
        (λ k there e. initial_queue-Complete cs k there e)
