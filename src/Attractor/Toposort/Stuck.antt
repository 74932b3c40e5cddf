-- ===== src/Attractor/Toposort/Stuck.antt =====
-- The names that are left when the queue is empty.
use mathlib.Core.Path.{subst}
use octopusgarden.Prelude.{
  ◌<◌, [], All, Any, arith, Bool-cases, eq_of_text_eq, false, if◌then◌else◌, In, inl, inr, length,
  List, ltb, refl, sym, Text, text_eq, text_eq_iff, true, ◌∷◌, ◌≡◌,
}
use octopusgarden.Attractor.Toposort.{Component, has_name, incoming}
use octopusgarden.Attractor.Toposort.Counts.{among, hits}

-- A component named `k` depends on `d`.
abbrev pub DependsOn : List Component → Text → Text → Type 0
DependsOn cs k d = Any (λ c. (c.name ≡ k) × In d c.depends_on) cs

-- Each of the names has a component that depends on one of them.
abbrev pub IsWaiting : List Component → List Text → Type 0
IsWaiting cs names = All (λ k. (d : Text) × DependsOn cs k d × In d names) names

among-missing :
    (finished ds : List Text)
    → among finished ds < length ds
    → (d : Text) × In d ds × (has_name d finished ≡ false)
among-missing finished [] h = absurd (omega (arith, h))
among-missing finished (d ∷ ds) h = elim (Bool-cases (has_name d finished)) [
  | inl e ↦
      let (m, there, missing) = among-missing finished ds (ground (arith, h, e)) in
      (m, inr there, missing)
  | inr e ↦ (d, inl refl, e)
]

pub hits-missing :
    (cs : List Component) (finished : List Text) (k : Text)
    → hits cs finished k < incoming cs k
    → (d : Text) × DependsOn cs k d × (has_name d finished ≡ false)
unfolding incoming
hits-missing [] finished k h = absurd (omega (arith, h))
hits-missing (c ∷ cs) finished k h = elim (Bool-cases (ltb (hits cs finished k) (incoming cs k))) [
  | inl low ↦
      let (d, depends, missing) = hits-missing cs finished k (ground (arith, low)) in
      (d, inr depends, missing)
  | inr high ↦ elim (Bool-cases (text_eq c.name k)) [
    | inl same ↦
        let (d, there, missing) =
          among-missing finished c.depends_on (ground (arith, h, same, high)) in
        (d, inl (eq_of_text_eq c.name k same, there), missing)
    | inr other ↦ absurd (ground (arith, h, other, high))
  ]
]

-- The names that are not among the others.
abbrev pub left_of : List Text → List Text → List Text
left_of done [] = []
left_of done (k ∷ names) = if has_name k done then left_of done names else k ∷ left_of done names

pub In-left_of :
    (done names : List Text) (k : Text)
    → In k names
    → has_name k done ≡ false
    → In k (left_of done names)
In-left_of done [] k h e = absurd h
In-left_of done (n ∷ names) k (inl same) e =
    rw (subst (λ x. has_name x done ≡ false) (sym same) e) (inl same)
In-left_of done (n ∷ names) k (inr h) e = elim (Bool-cases (has_name n done)) [
  | inl f ↦ rw f (In-left_of done names k h e)
  | inr f ↦ rw f (inr (In-left_of done names k h e))
]

pub All-left_of :
    (P : Text → Type 0) (done names : List Text)
    → ((k : Text) → In k names → has_name k done ≡ false → P k)
    → All P (left_of done names)
All-left_of P done [] h = tt
All-left_of P done (n ∷ names) h = elim (Bool-cases (has_name n done)) [
  | inl e ↦ rw e (All-left_of P done names (λ k there. h k (inr there)))
  | inr e ↦ rw e (h n (inl refl) e, All-left_of P done names (λ k there. h k (inr there)))
]

pub In-has_name : (k : Text) (names : List Text) → has_name k names ≡ true → In k names
In-has_name k [] h = cc
In-has_name k (n ∷ names) h = elim (Bool-cases (text_eq n k)) [
  | inl e ↦ inl (eq_of_text_eq n k e)
  | inr e ↦ inr (In-has_name k names (rw e at h))
]

pub has_name-In : (k : Text) (names : List Text) → In k names → has_name k names ≡ true
has_name-In k [] h = absurd h
has_name-In k (n ∷ names) (inl same) = rw ((text_eq_iff n k).1 same) refl
has_name-In k (n ∷ names) (inr h) = ground (arith, has_name-In k names h)

-- When nothing is left, all the names are among the others.
pub left_of-none : (done names : List Text) → left_of done names ≡ [] → All (λ t. In t done) names
left_of-none done [] h = tt
left_of-none done (n ∷ names) h = elim (Bool-cases (has_name n done)) [
  | inl e ↦ (In-has_name n done e, left_of-none done names (rw e at h))
  | inr e ↦ absurd (nonempty (rw e at h))
]
  where
    nonempty : n ∷ left_of done names ≡ [] → ⊥
    nonempty k = cc
