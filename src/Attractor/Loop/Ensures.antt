-- ===== src/Attractor/Loop/Ensures.antt =====
-- Postconditions of computations of the loop. An error leaves nothing to show.
use octopusgarden.Attractor.Loop.World.{Action, and_then, deferring, done, Exit, fail, Sys}
use octopusgarden.Attractor.Loop.State.{RunState}

module _ {W R : Type 0} where
  abbrev pub Ensures : {A : Type 0} → Exit W R A → (A → RunState R → Type 0) → Type 0
  Ensures (done a s) Q = Q a s.state
  Ensures (fail e) Q = Unit

  pub chain :
      {A B : Type 0} (P : A → RunState R → Type 0) (Q : B → RunState R → Type 0) (e : Exit W R A)
      (f : A → Action W R B)
      → Ensures e P
      → ((a : A) (t : Sys W R) → P a t.state → Ensures (f a t) Q)
      → Ensures (and_then e f) Q
  chain P Q (done a s) f h k = k a s h
  chain P Q (fail e) f h k = tt

  -- What is deferred changes the world only.
  pub deferring-Ensures :
      {A : Type 0} (Q : A → RunState R → Type 0) (g : W → W) (m : Action W R A) (s : Sys W R)
      → Ensures (m s) Q
      → Ensures (deferring g m s) Q
  deferring-Ensures Q g m s h = chain Q Q (m s) _ h (λ a t q. q)

  pub assume :
      {A : Type 0} (P : Type 0) (Q : A → RunState R → Type 0) (e : Exit W R A)
      → (P → Ensures e Q)
      → Ensures e (λ a t. P → Q a t)
  assume P Q (done a s) h = h
  assume P Q (fail e) h = tt

  pub use_now :
      {A : Type 0} (P : Type 0) (Q : A → RunState R → Type 0) (e : Exit W R A)
      → P
      → Ensures e (λ a t. P → Q a t)
      → Ensures e Q
  use_now P Q (done a s) p h = h p
  use_now P Q (fail e) p h = tt
