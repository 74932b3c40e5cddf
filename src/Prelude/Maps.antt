-- ===== src/Prelude/Maps.antt =====
-- Go maps whose keys are strings, as association lists. `insert` overwrites the entry of its key
-- where it stands, so keys stay distinct. Go iterates over a map in an order that it does not fix:
-- the model goes by the order of the list, and a statement about such a loop holds for every order.
use mathlib.Core.Path.{◌≡◌, refl, subst}
use mathlib.Core.Bool.{Bool, true, false}
use mathlib.Core.Logic.{inl, inr}
use mathlib.Core.Option.{Option, none, some, some-injective}
use mathlib.Core.List.{List, [], ◌∷◌, map}
use native.Mathlib.Omega.{arith}
use octopusgarden.Prelude.Tests.{if◌then◌else◌, Bool-cases}
use octopusgarden.Prelude.Lists.{All}
use octopusgarden.Prelude.Strings.{Text, text_eq, text_eq_iff, text_eq_refl}

abbrev pub Dict {ℓ} : Type ℓ → Type ℓ
Dict V = List (Text × V)

module _ {ℓ} {V : Type ℓ} where
  unfoldable pub lookup : Text → Dict V → Option V
  lookup k [] = none
  lookup k ((j, v) ∷ m) = if text_eq j k then some v else lookup k m

  unfoldable pub insert : Text → V → Dict V → Dict V
  insert k v [] = (k, v) ∷ []
  insert k v ((j, w) ∷ m) = if text_eq j k then (k, v) ∷ m else (j, w) ∷ insert k v m

  -- `maps.Copy(dst, src)`.
  unfoldable pub copy : Dict V → Dict V → Dict V
  copy dst [] = dst
  copy dst ((k, v) ∷ src) = copy (insert k v dst) src

  abbrev pub keys : Dict V → List Text
  keys m = map (λ e. e.0) m

  abbrev pub is_member : Text → Dict V → Bool
  is_member k m = elim (lookup k m) [ none ↦ false | some v ↦ true ]

  pub lookup-insert :
      (k j : Text) (v : V) (m : Dict V)
      → lookup j (insert k v m) ≡ (if text_eq k j then some v else lookup j m)
  unfolding lookup insert
  lookup-insert k j v [] = refl
  lookup-insert k j v ((i, w) ∷ m) =
      ground (arith, text_eq_iff k j, text_eq_iff i k, text_eq_iff i j, lookup-insert k j v m)

  pub lookup-insert_self : (k : Text) (v : V) (m : Dict V) → lookup k (insert k v m) ≡ some v
  lookup-insert_self k v m = rw (lookup-insert, text_eq_refl)

module _ {V : Type 0} (P : V → Type 0) where
  pub lookup-All :
      (k : Text) (m : Dict V) (v : V) → All (λ (e : Text × V). P e.1) m → lookup k m ≡ some v → P v
  unfolding lookup
  lookup-All k [] v h e = cc
  lookup-All k ((j, w) ∷ m) v (p, h) e = elim (Bool-cases (text_eq j k)) [
    | inl hit ↦ subst P (some-injective w v (ground (arith, hit, e))) p
    | inr miss ↦ lookup-All k m v h (ground (arith, miss, e))
  ]
