-- ===== src/Attractor/Toposort/Ordered.antt =====
-- Components come behind all that they depend on.
use mathlib.Core.Path.{subst}
use octopusgarden.Prelude.{
  ◌+◌, ◌++◌, ◌==◌, ==_iff, [], All, all, All-append, All-append_inv, append_assoc, AreDistinct,
  arith, Bool-cases, false, if◌then◌else◌, inl, inr, length, List, Option, refl, suc, sym, Text,
  text_eq, text_eq_iff, text_eq_refl, zero, ℕ, ◌∙◌, ◌∷◌, ◌≡◌, ◌≢◌, ◌≤◌,
}
use octopusgarden.Attractor.Toposort.{
  Component, components_of, decrement, dependents, drain, has_name, incoming, initial_queue,
  kahn_names, names_of, relax,
}
use octopusgarden.Attractor.Toposort.Counts.{
  AreIn, hits, hits-append, hits-AreIn, hits-incoming, hits-none, times,
}

-- Each name comes once, and behind the dependencies of its component.
abbrev pub IsOrdered : List Component → (finished names : List Text) → Type 0
IsOrdered cs finished [] = Unit
IsOrdered cs finished (k ∷ ks) =
    (has_name k finished ≡ false) × AreIn finished cs k × IsOrdered cs (finished ++ k ∷ []) ks

AreDistinct-append :
    (xs : List Text) (d : Text) → AreDistinct xs → All (λ k. k ≢ d) xs → AreDistinct (xs ++ d ∷ [])
AreDistinct-append [] d h other = (tt, tt)
AreDistinct-append (x ∷ xs) d (new, h) (x_ne_d, other) =
    (All-append (λ t. x ≢ t) xs (d ∷ []) new (x_ne_d, tt), AreDistinct-append xs d h other)

AreDistinct-new :
    (xs : List Text) (p : Text) (ys : List Text)
    → AreDistinct (xs ++ p ∷ ys)
    → has_name p xs ≡ false
AreDistinct-new [] p ys h = refl
AreDistinct-new (x ∷ xs) p ys (new, h) =
    let (later, (x_ne_p, rest)) = All-append_inv (λ t. x ≢ t) xs (p ∷ ys) new in
    ground (arith, text_eq_iff x p, AreDistinct-new xs p ys h)

decrement-plus :
    (d : Text) (removed : Text → ℕ) (k : Text)
    → decrement d removed k ≡ removed k + (if text_eq d k then 1 else 0)
decrement-plus d removed k = ground arith

-- The names whose dependencies are all taken back.
abbrev AreFull : (degree removed : Text → ℕ) → List Text → Type 0
AreFull degree removed names = All (λ k. removed k ≡ degree k) names

AreFull-other :
    (degree removed : Text → ℕ) (d : Text) (names : List Text)
    → suc (removed d) ≤ degree d
    → AreFull degree removed names
    → All (λ k. k ≢ d) names
AreFull-other degree removed d [] low h = tt
AreFull-other degree removed d (k ∷ names) low (full, h) = (
  λ same. absurd (below (subst (λ x. removed x ≡ degree x) same full)),
  AreFull-other degree removed d names low h,
)
  where
    below : removed d ≡ degree d → ⊥
    below e = omega (arith, low, e)

AreFull-decrement :
    (degree removed : Text → ℕ) (d : Text) (names : List Text)
    → All (λ k. k ≢ d) names
    → AreFull degree removed names
    → AreFull degree (decrement d removed) names
AreFull-decrement degree removed d [] other h = tt
AreFull-decrement degree removed d (k ∷ names) (k_ne_d, other) (full, h) =
    (ground (arith, text_eq_iff d k), AreFull-decrement degree removed d names other h)

abbrev IsRelaxed :
    (degree : Text → ℕ) → List Text → (Text → ℕ) → List Text → List Text × (Text → ℕ) → Type 0
IsRelaxed degree ds removed finished r =
    ((k : Text) → r.1 k ≡ removed k + times k ds)
    × AreFull degree r.1 (finished ++ r.0)
    × AreDistinct (finished ++ r.0)

relax-IsRelaxed :
    (degree : Text → ℕ) (ds queue : List Text) (removed : Text → ℕ) (finished : List Text)
    → ((k : Text) → removed k + times k ds ≤ degree k)
    → AreFull degree removed (finished ++ queue)
    → AreDistinct (finished ++ queue)
    → IsRelaxed degree ds removed finished (relax degree ds queue removed)
unfolding relax
relax-IsRelaxed degree [] queue removed finished bound full distinct =
    (λ k. omega arith, full, distinct)
relax-IsRelaxed degree (d ∷ ds) queue removed finished bound full distinct =
    let low : suc (removed d) ≤ degree d = ground (arith, bound d, text_eq_refl d) in
    let other = AreFull-other degree removed d (finished ++ queue) low full in
    let full_after = AreFull-decrement degree removed d (finished ++ queue) other full in
    let bound_after : (k : Text) → decrement d removed k + times k ds ≤ degree k =
      λ k. ground (arith, bound k) in
    widen (relax degree ds _ (decrement d removed))
      (elim (Bool-cases (decrement d removed d == degree d)) [
        | inl e ↦ rw e (
            relax-IsRelaxed degree ds (queue ++ d ∷ []) (decrement d removed) finished bound_after
              (subst (AreFull degree (decrement d removed)) (append_assoc finished queue (d ∷ [])) (
                All-append (λ k. decrement d removed k ≡ degree k) (finished ++ queue) (d ∷ [])
                  full_after ((==_iff (decrement d removed d) (degree d)).0 e, tt)))
              (subst AreDistinct (append_assoc finished queue (d ∷ []))
                (AreDistinct-append (finished ++ queue) d distinct other)))
        | inr e ↦ rw e (
            relax-IsRelaxed degree ds queue (decrement d removed) finished bound_after full_after
              distinct)
      ])
  where
    widen :
        (r : List Text × (Text → ℕ))
        → IsRelaxed degree ds (decrement d removed) finished r
        → IsRelaxed degree (d ∷ ds) removed finished r
    widen r (counted, rest, separate) =
        (λ k. omega (arith, counted k, decrement-plus d removed k), rest, separate)

-- The state of the loop when `finished` have left the queue.
abbrev pub IsLoop : List Component → (finished : List Text) → List Text × (Text → ℕ) → Type 0
IsLoop cs finished st =
    ((k : Text) → st.1 k ≡ hits cs finished k)
    × AreFull (incoming cs) st.1 (finished ++ st.0)
    × AreDistinct (finished ++ st.0)

pub IsLoop-next :
    (cs : List Component) (finished : List Text) (p : Text) (queue : List Text) (removed : Text → ℕ)
    → IsLoop cs finished (p ∷ queue, removed)
    → IsLoop cs (finished ++ p ∷ []) (relax (incoming cs) (dependents cs p) queue removed)
IsLoop-next cs finished p queue removed (counted, full, distinct) =
    let new = AreDistinct-new finished p queue distinct in
    let step : (k : Text) → removed k + times k (dependents cs p) ≡ hits cs (finished ++ p ∷ []) k =
      λ k. omega (arith, counted k, hits-append cs finished p k new) in
    let (counted_after, full_after, distinct_after) =
      relax-IsRelaxed (incoming cs) (dependents cs p) queue removed (finished ++ p ∷ [])
        (λ k. omega (arith, step k, hits-incoming cs (finished ++ p ∷ []) k))
        (subst (AreFull (incoming cs) removed) (sym (append_assoc finished (p ∷ []) queue)) full)
        (subst AreDistinct (sym (append_assoc finished (p ∷ []) queue)) distinct) in
    (λ k. counted_after k ∙ step k, full_after, distinct_after)

drain-IsOrdered :
    (cs : List Component) (fuel : ℕ) (finished : List Text) (st : List Text × (Text → ℕ))
    → IsLoop cs finished st
    → IsOrdered cs finished (drain fuel (incoming cs) (dependents cs) st)
unfolding drain
drain-IsOrdered cs zero finished (queue, removed) h = tt
drain-IsOrdered cs (suc fuel) finished ([], removed) h = tt
drain-IsOrdered cs (suc fuel) finished (p ∷ queue, removed) (counted, full, distinct) =
    let (before, (p_full, rest)) =
      All-append_inv (λ k. removed k ≡ incoming cs k) finished (p ∷ queue) full in
    (
      AreDistinct-new finished p queue distinct,
      hits-AreIn cs finished p (sym (counted p) ∙ p_full),
      drain-IsOrdered cs fuel (finished ++ p ∷ []) _
          (IsLoop-next cs finished p queue removed (counted, full, distinct)),
    )

initial_queue-AreFull :
    (all cs : List Component) → AreFull (incoming all) (λ k. 0) (initial_queue all cs)
unfolding initial_queue
initial_queue-AreFull all [] = tt
initial_queue-AreFull all (c ∷ cs) = elim (Bool-cases (incoming all c.name == 0)) [
  | inl e ↦ rw e (sym ((==_iff (incoming all c.name) 0).0 e), initial_queue-AreFull all cs)
  | inr e ↦ rw e (initial_queue-AreFull all cs)
]

pub All-initial_queue :
    (P : Text → Type 0) (all cs : List Component)
    → All P (names_of cs)
    → All P (initial_queue all cs)
unfolding initial_queue
All-initial_queue P all [] h = tt
All-initial_queue P all (c ∷ cs) (p, h) = elim (Bool-cases (incoming all c.name == 0)) [
  | inl e ↦ rw e (p, All-initial_queue P all cs h)
  | inr e ↦ rw e (All-initial_queue P all cs h)
]

AreDistinct-initial_queue :
    (all cs : List Component) → AreDistinct (names_of cs) → AreDistinct (initial_queue all cs)
unfolding initial_queue
AreDistinct-initial_queue all [] h = tt
AreDistinct-initial_queue all (c ∷ cs) (new, h) = elim (Bool-cases (incoming all c.name == 0)) [
  | inl e ↦
      rw e (All-initial_queue (λ t. c.name ≢ t) all cs new, AreDistinct-initial_queue all cs h)
  | inr e ↦ rw e (AreDistinct-initial_queue all cs h)
]

pub IsLoop-start :
    (cs : List Component) → AreDistinct (names_of cs) → IsLoop cs [] (initial_queue cs cs, λ k. 0)
IsLoop-start cs distinct = (
  λ k. sym (hits-none cs k),
  initial_queue-AreFull cs cs,
  AreDistinct-initial_queue cs cs distinct,
)

pub kahn_names-IsOrdered :
    (cs : List Component) → AreDistinct (names_of cs) → IsOrdered cs [] (kahn_names cs)
unfolding kahn_names
kahn_names-IsOrdered cs distinct =
    drain-IsOrdered cs (suc (length cs)) [] (initial_queue cs cs, λ k. 0) (IsLoop-start cs distinct)

-- The components in an order in which each name comes once, and behind all that its component
-- depends on.
abbrev pub IsSorting : List Component → List (Option Component) → Type 0
IsSorting cs sorted =
    (names : List Text) × (sorted ≡ components_of cs names)
    × (length names ≡ length cs)
    × IsOrdered cs [] names
