-- ===== src/Prelude/Sorting.antt =====
-- The order of texts, the entries of a map in the order of their keys, and sorted texts.
use mathlib.Core.List.{Permᴰ}
use octopusgarden.Prelude.Tests.{Bool-cases, if◌then◌else◌}
use octopusgarden.Prelude.Strings.{Text, text_lt}
use octopusgarden.Prelude.Maps.{Dict}
use octopusgarden.Prelude.Lists.{All, In}
use mathlib.Core.Path.{◌≡◌, refl, ap, ap₂, sym, subst, ◌∙◌}
use mathlib.Core.Bool.{true, false}
use mathlib.Core.Logic.{◌≢◌, ◌⊎◌, ◌↔◌, inl, inr}
use mathlib.Core.List.{List, [], ◌∷◌}
use native.Mathlib.Omega.{arith}

pub text_lt_irrefl : (s : Text) → text_lt s s ≡ false
text_lt_irrefl [] = refl
text_lt_irrefl (x ∷ s) = ground (arith, text_lt_irrefl s)

pub text_lt_trans : (s t u : Text) → text_lt s t ≡ true → text_lt t u ≡ true → text_lt s u ≡ true
text_lt_trans [] [] u h k = cc
text_lt_trans [] (y ∷ t) [] h k = cc
text_lt_trans [] (y ∷ t) (z ∷ u) h k = refl
text_lt_trans (x ∷ s) [] u h k = cc
text_lt_trans (x ∷ s) (y ∷ t) [] h k = cc
text_lt_trans (x ∷ s) (y ∷ t) (z ∷ u) h k = ground (arith, text_lt_trans s t u)

pub text_lt_total : (s t : Text) → (text_lt s t ≡ true) ⊎ (s ≡ t) ⊎ (text_lt t s ≡ true)
text_lt_total [] [] = inr (inl refl)
text_lt_total [] (y ∷ t) = inl refl
text_lt_total (x ∷ s) [] = inr (inr refl)
text_lt_total (x ∷ s) (y ∷ t) = ground (arith, text_lt_total s t)

module _ {ℓ} {V : Type ℓ} where
  unfoldable pub insert_entry : Text → V → Dict V → Dict V
  insert_entry k v [] = (k, v) ∷ []
  insert_entry k v ((j, w) ∷ m) =
      if text_lt j k then (j, w) ∷ insert_entry k v m else (k, v) ∷ (j, w) ∷ m

  -- The entries in the order of their keys, which are distinct.
  unfoldable pub sort_entries : Dict V → Dict V
  unfolding insert_entry
  sort_entries [] = []
  sort_entries ((k, v) ∷ m) = insert_entry k v (sort_entries m)

  pub insert_entry_comm :
      (k j : Text) (v w : V) (m : Dict V)
      → k ≢ j
      → insert_entry k v (insert_entry j w m) ≡ insert_entry j w (insert_entry k v m)
  unfolding insert_entry
  insert_entry_comm k j v w [] h =
      ground (arith, text_lt_total k j, text_lt_trans k j k, text_lt_irrefl k)
  insert_entry_comm k j v w ((i, x) ∷ m) h = ground (
    arith,
    insert_entry_comm k j v w m,
    text_lt_total k j,
    text_lt_total k i,
    text_lt_total i j,
    text_lt_trans k j k,
    text_lt_trans k i j,
    text_lt_trans j i k,
    text_lt_trans i k j,
    text_lt_trans i j k,
    text_lt_trans k j i,
    text_lt_trans j k i,
    text_lt_irrefl k,
  )

  -- The keys are distinct.
  abbrev pub HasDistinctKeys : Dict V → Type 0
  HasDistinctKeys [] = Unit
  HasDistinctKeys ((k, v) ∷ m) = All (λ e. k ≢ e.0) m × HasDistinctKeys m

module _ {ℓ} {V : Type ℓ} where
  All-perm : (P : Text × V → Type 0) {m n : Dict V} → Permᴰ m n → All P m → All P n
  All-perm P Permᴰ.nil h = h
  All-perm P (Permᴰ.cons e p) (px, h) = (subst P e px, All-perm P p h)
  All-perm P (Permᴰ.swap e f) (px, (py, h)) = (subst P f py, (subst P e px, h))
  All-perm P (Permᴰ.trans p q) h = All-perm P q (All-perm P p h)

  HasDistinctKeys-perm : {m n : Dict V} → Permᴰ m n → HasDistinctKeys m → HasDistinctKeys n
  HasDistinctKeys-perm Permᴰ.nil h = h
  HasDistinctKeys-perm (Permᴰ.cons {b = b} {l₂ = l} e p) (new, h) = (
    subst (λ (x : Text × V). All (λ (y : Text × V). x.0 ≢ y.0) l) e (All-perm _ p new),
    HasDistinctKeys-perm p h,
  )
  HasDistinctKeys-perm (Permᴰ.swap {l = l} e f) ((x_ne_y, x_new), (y_new, h)) = (
    (
      λ k. x_ne_y (ap (λ (e : Text × V). e.0) e ∙ sym k ∙ ap (λ (e : Text × V). e.0) (sym f)),
      subst (λ (x : Text × V). All (λ (y : Text × V). x.0 ≢ y.0) l) f y_new,
    ),
    (subst (λ (x : Text × V). All (λ (y : Text × V). x.0 ≢ y.0) l) e x_new, h),
  )
  HasDistinctKeys-perm (Permᴰ.trans p q) h = HasDistinctKeys-perm q (HasDistinctKeys-perm p h)

  pub sort_entries-perm :
      {m n : Dict V} → Permᴰ m n → HasDistinctKeys m → sort_entries m ≡ sort_entries n
  unfolding sort_entries
  sort_entries-perm Permᴰ.nil h = refl
  sort_entries-perm (Permᴰ.cons e p) (new, h) =
      ap₂ (λ (e : Text × V) r. insert_entry e.0 e.1 r) e (sort_entries-perm p h)
  sort_entries-perm (Permᴰ.swap {a = a} {b = b} {l = l} e f) ((x_ne_y, x_new), (y_new, h)) =
      insert_entry_comm a.0 b.0 a.1 b.1 (sort_entries l) x_ne_y
      ∙ ap₂ (λ (x y : Text × V). insert_entry x.0 x.1 (insert_entry y.0 y.1 (sort_entries l))) f e
  sort_entries-perm (Permᴰ.trans p q) h =
      sort_entries-perm p h ∙ sort_entries-perm q (HasDistinctKeys-perm p h)

-- slices.Sort on strings.
unfoldable pub insert_text : Text → List Text → List Text
insert_text s [] = s ∷ []
insert_text s (t ∷ ts) = if text_lt t s then t ∷ insert_text s ts else s ∷ t ∷ ts

unfoldable pub sort_texts : List Text → List Text
unfolding insert_text
sort_texts [] = []
sort_texts (s ∷ ss) = insert_text s (sort_texts ss)

-- Each text is below the next.
abbrev pub IsIncreasing : List Text → Type 0
IsIncreasing [] = Unit
IsIncreasing (s ∷ ss) = All (λ t. text_lt s t ≡ true) ss × IsIncreasing ss

All-insert_text :
    (P : Text → Type 0) (s : Text) (ss : List Text) → P s → All P ss → All P (insert_text s ss)
unfolding insert_text
All-insert_text P s [] ps h = (ps, tt)
All-insert_text P s (t ∷ ts) ps (pt, h) = elim (Bool-cases (text_lt t s)) [
  | inl e ↦ rw e (pt, All-insert_text P s ts ps h)
  | inr e ↦ rw e (ps, (pt, h))
]

below_both :
    (s t : Text)
    → text_lt s t ≡ true
    → (us : List Text) → All (λ u. text_lt t u ≡ true) us
    → All (λ u. text_lt s u ≡ true) us
below_both s t lt [] h = tt
below_both s t lt (u ∷ us) (below, h) = (text_lt_trans s t u lt below, below_both s t lt us h)

insert_text-IsIncreasing :
    (s : Text) (ss : List Text)
    → All (λ t. s ≢ t) ss
    → IsIncreasing ss
    → IsIncreasing (insert_text s ss)
unfolding insert_text
insert_text-IsIncreasing s [] new h = (tt, tt)
insert_text-IsIncreasing s (t ∷ ts) (s_ne_t, new) (below, h) = elim (Bool-cases (text_lt t s)) [
  | inl e ↦
      rw e (
        All-insert_text (λ u. text_lt t u ≡ true) s ts e below,
        insert_text-IsIncreasing s ts new h,
      )
  | inr e ↦
      let first : text_lt s t ≡ true = ground (arith, text_lt_total s t) in
      rw e ((first, below_both s t first ts below), (below, h))
]

-- The elements are distinct.
abbrev pub AreDistinct : List Text → Type 0
AreDistinct [] = Unit
AreDistinct (s ∷ ss) = All (λ t. s ≢ t) ss × AreDistinct ss

pub All-sort_texts : (P : Text → Type 0) (ss : List Text) → All P ss → All P (sort_texts ss)
unfolding sort_texts
All-sort_texts P [] h = tt
All-sort_texts P (s ∷ ss) (ps, h) = All-insert_text P s (sort_texts ss) ps (All-sort_texts P ss h)

pub sort_texts-IsIncreasing : (ss : List Text) → AreDistinct ss → IsIncreasing (sort_texts ss)
unfolding sort_texts
sort_texts-IsIncreasing [] h = tt
sort_texts-IsIncreasing (s ∷ ss) (new, h) =
    insert_text-IsIncreasing s (sort_texts ss) (All-sort_texts (λ t. s ≢ t) ss new)
      (sort_texts-IsIncreasing ss h)

In-insert_text : (s t : Text) (ss : List Text) → In t (insert_text s ss) ↔ (s ≡ t ⊎ In t ss)
unfolding insert_text
In-insert_text s t [] = (λ h. h, λ h. h)
In-insert_text s t (u ∷ us) = elim (Bool-cases (text_lt u s)) [
  | inl e ↦ rw e (
    λ h. elim h [
      | inl same ↦ inr (inl same)
      | inr k ↦ elim ((In-insert_text s t us).0 k) [ inl same ↦ inl same | inr j ↦ inr (inr j) ]
    ],
    λ h. elim h [
      | inl same ↦ inr ((In-insert_text s t us).1 (inl same))
      | inr k ↦ elim k [ inl same ↦ inl same | inr j ↦ inr ((In-insert_text s t us).1 (inr j)) ]
    ],
  )
  | inr e ↦ rw e (λ h. h, λ h. h)
]

pub In-sort_texts : (t : Text) (ss : List Text) → In t (sort_texts ss) ↔ In t ss
unfolding sort_texts
In-sort_texts t [] = (λ h. h, λ h. h)
In-sort_texts t (s ∷ ss) = (
  λ h. elim ((In-insert_text s t (sort_texts ss)).0 h) [
    | inl same ↦ inl same
    | inr k ↦ inr ((In-sort_texts t ss).0 k)
  ],
  λ h. elim h [
    | inl same ↦ (In-insert_text s t (sort_texts ss)).1 (inl same)
    | inr k ↦ (In-insert_text s t (sort_texts ss)).1 (inr ((In-sort_texts t ss).1 k))
  ],
)
