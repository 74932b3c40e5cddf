-- ===== src/Attractor/Toposort/Counts.antt =====
-- How many dependencies of a component are done.
use mathlib.Core.Path.{subst}
use octopusgarden.Prelude.{
  ◌+◌, ◌++◌, [], All, arith, Bool-cases, eq_of_text_eq, false, if◌then◌else◌, inl, inr, length,
  List, refl, sym, Text, text_eq, true, ◌||◌, ℕ, ◌∷◌, ◌≡◌, ◌≤◌,
}
use octopusgarden.Attractor.Toposort.{Component, dependents, has_name, incoming, named}

-- How often a name stands in a list.
abbrev pub times : Text → List Text → ℕ
times k [] = 0
times k (d ∷ ds) = (if text_eq d k then 1 else 0) + times k ds

times-append : (k : Text) (xs ys : List Text) → times k (xs ++ ys) ≡ times k xs + times k ys
times-append k [] ys = omega arith
times-append k (x ∷ xs) ys = omega (arith, times-append k xs ys)

-- How many of the dependencies are done.
abbrev pub among : List Text → List Text → ℕ
among finished [] = 0
among finished (d ∷ ds) = (if has_name d finished then 1 else 0) + among finished ds

pub among-length : (finished ds : List Text) → among finished ds ≤ length ds
among-length finished [] = omega arith
among-length finished (d ∷ ds) = ground (arith, among-length finished ds)

among-all :
    (finished ds : List Text)
    → among finished ds ≡ length ds
    → All (λ d. has_name d finished ≡ true) ds
among-all finished [] h = tt
among-all finished (d ∷ ds) h = elim (Bool-cases (has_name d finished)) [
  | inl e ↦ (e, among-all finished ds (ground arith))
  | inr e ↦ absurd (ground (arith, among-length finished ds))
]

has_name-append :
    (k : Text) (xs : List Text) (p : Text)
    → has_name k (xs ++ p ∷ []) ≡ (has_name k xs || text_eq p k)
has_name-append k [] p = ground arith
has_name-append k (x ∷ xs) p = ground (arith, has_name-append k xs p)

pub text_eq_sym : (s t : Text) → text_eq s t ≡ text_eq t s
text_eq_sym [] [] = refl
text_eq_sym [] (y ∷ t) = refl
text_eq_sym (x ∷ s) [] = refl
text_eq_sym (x ∷ s) (y ∷ t) = ground (arith, text_eq_sym s t)

has_name-same :
    (d p : Text) (finished : List Text)
    → has_name p finished ≡ false
    → text_eq d p ≡ true
    → has_name d finished ≡ false
has_name-same d p finished h same =
    subst (λ x. has_name x finished ≡ false) (sym (eq_of_text_eq d p same)) h

among-none : (ds : List Text) → among [] ds ≡ 0
among-none [] = refl
among-none (d ∷ ds) = omega (arith, among-none ds)

among-append :
    (finished : List Text) (p : Text) (ds : List Text)
    → has_name p finished ≡ false
    → among (finished ++ p ∷ []) ds ≡ among finished ds + times p ds
among-append finished p [] h = refl
among-append finished p (d ∷ ds) h = ground (
  arith,
  has_name-append d finished p,
  among-append finished p ds h,
  text_eq_sym p d,
  has_name-same d p finished h,
)

-- The increments of a name that are taken back when `finished` are done.
abbrev pub hits : List Component → List Text → Text → ℕ
hits [] finished k = 0
hits (c ∷ cs) finished k =
    (if text_eq c.name k then among finished c.depends_on else 0) + hits cs finished k

pub hits-incoming :
    (cs : List Component) (finished : List Text) (k : Text) → hits cs finished k ≤ incoming cs k
unfolding incoming
hits-incoming [] finished k = omega arith
hits-incoming (c ∷ cs) finished k =
    ground (arith, hits-incoming cs finished k, among-length finished c.depends_on)

pub hits-none : (cs : List Component) (k : Text) → hits cs [] k ≡ 0
hits-none [] k = refl
hits-none (c ∷ cs) k = ground (arith, hits-none cs k, among-none c.depends_on)

times-named :
    (k n p : Text) (ds : List Text)
    → times k (named n p ds) ≡ (if text_eq n k then times p ds else 0)
unfolding named
times-named k n p [] = ground arith
times-named k n p (d ∷ ds) = ground (arith, times-named k n p ds)

pub hits-append :
    (cs : List Component) (finished : List Text) (p k : Text)
    → has_name p finished ≡ false
    → hits cs (finished ++ p ∷ []) k ≡ hits cs finished k + times k (dependents cs p)
unfolding dependents
hits-append [] finished p k h = refl
hits-append (c ∷ cs) finished p k h = ground (
  arith,
  hits-append cs finished p k h,
  among-append finished p c.depends_on h,
  times-named k c.name p c.depends_on,
  times-append k (named c.name p c.depends_on) (dependents cs p),
)

-- A component behind all that it depends on.
abbrev pub AreIn : List Text → List Component → Text → Type 0
AreIn finished [] k = Unit
AreIn finished (c ∷ cs) k =
    (text_eq c.name k ≡ true → All (λ d. has_name d finished ≡ true) c.depends_on)
    × AreIn finished cs k

pub hits-AreIn :
    (cs : List Component) (finished : List Text) (k : Text)
    → hits cs finished k ≡ incoming cs k
    → AreIn finished cs k
unfolding incoming
hits-AreIn [] finished k h = tt
hits-AreIn (c ∷ cs) finished k h = (
  λ same.
      among-all finished c.depends_on
        (ground (arith, hits-incoming cs finished k, among-length finished c.depends_on)),
  hits-AreIn cs finished k
      (ground (arith, hits-incoming cs finished k, among-length finished c.depends_on)),
)
