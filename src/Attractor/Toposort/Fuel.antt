-- ===== src/Attractor/Toposort/Fuel.antt =====
-- The queue is empty before the fuel is used up.
use octopusgarden.Prelude.{
  ◌+◌, ◌++◌, ◌<◌, ◌==◌, [], All, All-append, ap, AreDistinct, arith, Bool, Bool-cases,
  eq_of_text_eq, false, if◌then◌else◌, In, inl, inr, length, length-append, List, refl, suc, sym,
  Text, text_eq, text_eq_iff, true, zero, ℕ, ◌∙◌, ◌∷◌, ◌≡◌, ◌≢◌, ◌≤◌,
}
use octopusgarden.Attractor.Toposort.{
  Component, decrement, dependents, drain, incoming, initial_queue, kahn_names, named, names_of,
  relax,
}
use octopusgarden.Attractor.Toposort.Ordered.{All-initial_queue, IsLoop, IsLoop-next, IsLoop-start}

abbrev without : Text → List Text → List Text
without x [] = []
without x (n ∷ names) = if text_eq n x then names else n ∷ without x names

length-without :
    (x : Text) (names : List Text) → In x names → length names ≡ suc (length (without x names))
length-without x [] h = absurd h
length-without x (n ∷ names) h = elim (Bool-cases (text_eq n x)) [
  | inl e ↦ rw e refl
  | inr e ↦ rw e (elim h [
    | inl same ↦ absurd (ground (arith, text_eq_iff n x, same))
    | inr later ↦ omega (arith, length-without x names later)
  ])
]

In-without : (x y : Text) (names : List Text) → x ≢ y → In y names → In y (without x names)
In-without x y [] other h = absurd h
In-without x y (n ∷ names) other h = elim (Bool-cases (text_eq n x)) [
  | inl e ↦
      rw e (elim h [
        | inl same ↦ absurd (other (sym (eq_of_text_eq n x e) ∙ same))
        | inr later ↦ later
      ])
  | inr e ↦
      rw e (elim h [ inl same ↦ inl same | inr later ↦ inr (In-without x y names other later) ])
]

All-without :
    (x : Text) (names xs : List Text)
    → All (λ t. x ≢ t) xs
    → All (λ t. In t names) xs
    → All (λ t. In t (without x names)) xs
All-without x names [] other h = tt
All-without x names (y ∷ xs) (x_ne_y, other) (y_in, h) =
    (In-without x y names x_ne_y y_in, All-without x names xs other h)

-- Distinct elements of a list are no more than its elements.
pub length-AreDistinct :
    (xs names : List Text) → AreDistinct xs → All (λ t. In t names) xs → length xs ≤ length names
length-AreDistinct [] names distinct h = omega arith
length-AreDistinct (x ∷ xs) names (new, distinct) (x_in, h) = omega (
  arith,
  length-without x names x_in,
  length-AreDistinct xs (without x names) distinct (All-without x names xs new h),
)

module _ (P : Text → Type 0) where
  All-named : (n p : Text) (ds : List Text) → P n → All P (named n p ds)
  unfolding named
  All-named n p [] h = tt
  All-named n p (d ∷ ds) h = elim (Bool-cases (text_eq d p)) [
    | inl e ↦ rw e (h, All-named n p ds h)
    | inr e ↦ rw e (All-named n p ds h)
  ]

  pub All-dependents :
      (cs : List Component) (p : Text) → All P (names_of cs) → All P (dependents cs p)
  unfolding dependents
  All-dependents [] p h = tt
  All-dependents (c ∷ cs) p (pc, h) =
      All-append P (named c.name p c.depends_on) (dependents cs p)
        (All-named c.name p c.depends_on pc) (All-dependents cs p h)

  pub All-relax :
      (degree : Text → ℕ) (ds queue : List Text) (removed : Text → ℕ)
      → All P ds
      → All P queue
      → All P (relax degree ds queue removed).0
  unfolding relax
  All-relax degree [] queue removed h k = k
  All-relax degree (d ∷ ds) queue removed (pd, h) k =
      All-relax degree ds _ (decrement d removed) h (queued (decrement d removed d == degree d))
    where
      queued : (b : Bool) → All P (if b then queue ++ d ∷ [] else queue)
      queued true = All-append P queue (d ∷ []) k (pd, tt)
      queued false = k

module _ (cs : List Component) where
  abbrev pub AreNames : List Text → Type 0
  AreNames xs = All (λ t. In t (names_of cs)) xs

  pub names_of-AreNames :
      (ds : List Component)
      → ((t : Text) → In t (names_of ds) → In t (names_of cs))
      → AreNames (names_of ds)
  names_of-AreNames [] h = tt
  names_of-AreNames (d ∷ ds) h = (h d.name (inl refl), names_of-AreNames ds (λ t k. h t (inr k)))

  pub length-names_of : (ds : List Component) → length (names_of ds) ≡ length ds
  length-names_of [] = refl
  length-names_of (d ∷ ds) = omega (arith, length-names_of ds)

  drain-fuel :
      (fuel more : ℕ) (finished : List Text) (st : List Text × (Text → ℕ))
      → fuel ≤ more
      → length cs < length finished + fuel
      → AreNames finished
      → AreNames st.0
      → IsLoop cs finished st
      → drain more (incoming cs) (dependents cs) st ≡ drain fuel (incoming cs) (dependents cs) st
  unfolding drain
  drain-fuel zero more finished (queue, removed) le enough done left (counted, full, distinct) =
      absurd (
        omega (
          arith,
          length-append finished queue,
          length-names_of cs,
          length-AreDistinct (finished ++ queue) (names_of cs) distinct
              (All-append _ finished queue done left),
        ))
  drain-fuel (suc fuel) zero finished st le enough done left h = absurd (omega arith)
  drain-fuel (suc fuel) (suc more) finished ([], removed) le enough done left h = refl
  drain-fuel (suc fuel) (suc more) finished (p ∷ queue, removed) le enough done (p_in, left) h =
      ap (λ x. p ∷ x)
        (drain-fuel fuel more (finished ++ p ∷ [])
          (relax (incoming cs) (dependents cs p) queue removed) (omega arith)
          (omega (arith, length-append finished (p ∷ [])))
          (All-append _ finished (p ∷ []) done (p_in, tt))
          (All-relax _ (incoming cs) (dependents cs p) queue removed
            (All-dependents _ cs p (names_of-AreNames cs (λ t k. k))) left)
          (IsLoop-next cs finished p queue removed h))

  -- For components whose names are distinct, no fuel above one more than their number gives another
  -- list of names, so that the loop ends with an empty queue.
  pub kahn_names-fuel :
      (more : ℕ)
      → AreDistinct (names_of cs)
      → length cs < more
      → drain more (incoming cs) (dependents cs) (initial_queue cs cs, λ k. 0) ≡ kahn_names cs
  unfolding kahn_names
  kahn_names-fuel more distinct enough =
      drain-fuel (suc (length cs)) more [] (initial_queue cs cs, λ k. 0) (omega arith) (omega arith)
        tt (All-initial_queue _ cs cs (names_of-AreNames cs (λ t k. k))) (IsLoop-start cs distinct)
