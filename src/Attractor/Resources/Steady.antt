-- ===== src/Attractor/Resources/Steady.antt =====
-- Computations that leave the books as they found them.
use octopusgarden.Prelude.{◌+◌, arith, Bool, false, if◌then◌else◌, refl, true, ℕ, ◌≡◌, ◌≤◌}
use octopusgarden.Attractor.Loop.World.{◌>>=◌, Action, and_then, call, done, Exit, fail, pure, Sys}
use octopusgarden.Attractor.Resources.Books.{Books, Counts, counts, lifted}

module _ {W R : Type 0} where
  -- A postcondition on the counts. An error leaves nothing to show.
  abbrev pub Holds : {A : Type 0} → Exit (Books W) R A → (A → Counts → Type 0) → Type 0
  Holds (done a s) Q = Q a (counts s.world)
  Holds (fail e) Q = Unit

  -- A postcondition from given counts on.
  abbrev pub From : {A : Type 0} → Counts → Action (Books W) R A → (A → Counts → Type 0) → Type 0
  From c m Q = (s : Sys (Books W) R) → counts s.world ≡ c → Holds (m s) Q

module _ {W R A : Type 0} where
  pub Holds-map :
      (P Q : A → Counts → Type 0) (e : Exit (Books W) R A)
      → ((a : A) (c : Counts) → P a c → Q a c)
      → Holds e P
      → Holds e Q
  Holds-map P Q (done a s) f h = f a _ h
  Holds-map P Q (fail e) f h = tt

  pub Holds-if :
      (Q : A → Counts → Type 0) (b : Bool) (x y : Exit (Books W) R A)
      → Holds x Q
      → Holds y Q
      → Holds (if b then x else y) Q
  Holds-if Q true x y h k = h
  Holds-if Q false x y h k = k

  pub from_if :
      (Q : A → Counts → Type 0) (c : Counts) (b : Bool) (m k : Action (Books W) R A)
      → From c m Q
      → From c k Q
      → From c (if b then m else k) Q
  from_if Q c true m k hm hk = hm
  from_if Q c false m k hm hk = hk

module _ {W R A B : Type 0} where
  pub from_bind :
      (P : A → Counts → Type 0) (Q : B → Counts → Type 0) (c : Counts) (m : Action (Books W) R A)
      (k : A → Action (Books W) R B)
      → From c m P
      → ((a : A) (d : Counts) → P a d → From d (k a) Q)
      → From c (m >>= k) Q
  from_bind P Q c m k hm hk s e = go (m s) (hm s e)
    where
      go : (x : Exit (Books W) R A) → Holds x P → Holds (and_then x k) Q
      go (done a t) h = hk a _ h t refl
      go (fail e) h = tt

-- The same containers and sessions are open, and at most `n` generations were asked for.
abbrev pub Spends : ℕ → Counts → Counts → Type 0
Spends n c d =
    (d.containers ≡ c.containers) × (d.sessions ≡ c.sessions) × (d.generations ≤ c.generations + n)

abbrev pub Within : {W R A : Type 0} → ℕ → Action (Books W) R A → Type 0
Within n m = (c : Counts) → From c m (λ _ d. Spends n c d)

module _ {W R A B : Type 0} where
  pub Within-bind :
      (n k t : ℕ) (m : Action (Books W) R A) (f : A → Action (Books W) R B)
      → n + k ≤ t
      → Within n m
      → ((a : A) → Within k (f a))
      → Within t (m >>= f)
  Within-bind n k t m f le hm hf c =
      from_bind (λ _ d. Spends n c d) _ c m f (hm c)
        (λ a d p s e.
          Holds-map (λ _ d'. Spends k d d') _ (f a s) (λ b d' q. ground (arith, le, p, q))
            (hf a d s e))

  pub Within-then :
      (n : ℕ) (m : Action (Books W) R A) (f : A → Action (Books W) R B)
      → Within 0 m
      → ((a : A) → Within n (f a))
      → Within n (m >>= f)
  Within-then n m f hm hf c =
      from_bind (λ _ d. Spends 0 c d) _ c m f (hm c)
        (λ a d p s e.
          Holds-map (λ _ d'. Spends n d d') _ (f a s) (λ b d' q. ground (arith, p, q)) (hf a d s e))

module _ {W R A : Type 0} where
  pub Within-if :
      (n : ℕ) (b : Bool) (m k : Action (Books W) R A)
      → Within n m
      → Within n k
      → Within n (if b then m else k)
  Within-if n true m k hm hk = hm
  Within-if n false m k hm hk = hk

  pub Within-pure : (a : A) → Within {W = W} {R = R} 0 (pure a)
  Within-pure a c s e = ground arith

  pub Within-lifted : (f : W → A × W) → Within {R = R} 0 (call (lifted f))
  Within-lifted f c s e = ground arith

  pub Within-mono : (n k : ℕ) (m : Action (Books W) R A) → n ≤ k → Within n m → Within k m
  Within-mono n k m h hm c s e =
      Holds-map (λ _ d. Spends n c d) _ (m s) (λ a d q. ground (arith, q)) (hm c s e)
