-- ===== src/Attractor/Regression/Found.antt =====
-- Which regressions are reported, and in what order.
use mathlib.Core.Bool.{true≢false}
use mathlib.Core.Option.{none-ne-some}
use mathlib.Core.Path.{subst}
use octopusgarden.Prelude.{
  ◌&&◌, [], All, All-map, Any, Any-append_inv, Any-append_left, Any-append_right, ap, arith, Bool,
  Bool-cases, Dict, false, fge, Float, flt, if◌then◌else◌, In, inl, inr, is_empty, List, lookup,
  none, Option, refl, some, sym, Text, text_lt, text_lt_irrefl, text_lt_total, text_lt_trans, true,
  ℕ, ◌↔◌, ◌∙◌, ◌∷◌, ◌≡◌, ◌⊎◌,
}
use octopusgarden.Attractor.Regression.{
  collect_regressions, detect_regressions, drop_of, insert_regression, Regression, regression_of,
  sort_regressions,
}

lt_not_gt : (s t : Text) → text_lt s t ≡ true → text_lt t s ≡ false
lt_not_gt s t h = elim (Bool-cases (text_lt t s)) [
  | inl k ↦ absurd (true≢false (sym (text_lt_trans s t s h k) ∙ text_lt_irrefl s))
  | inr k ↦ k
]

not_lt_trans : (s t u : Text) → text_lt s t ≡ false → text_lt t u ≡ false → text_lt s u ≡ false
not_lt_trans s t u h k = elim (Bool-cases (text_lt s u)) [
  | inl e ↦ elim (text_lt_total t u) [
    | inl before ↦ absurd (true≢false (sym before ∙ k))
    | inr (inl same) ↦ absurd (true≢false (sym e ∙ ap (text_lt s) (sym same) ∙ h))
    | inr (inr after) ↦ absurd (true≢false (sym (text_lt_trans s u t e after) ∙ h))
  ]
  | inr e ↦ e
]

lookup-none : {V : Type 0} (k : Text) (m : Dict V) → is_empty m ≡ true → lookup k m ≡ none
unfolding lookup
lookup-none k [] h = refl
lookup-none k (e ∷ m) h = absurd (true≢false (sym h))

module _ {R : Type 0} ⦃F : Float R⦄ where
  insert_regression-In :
      (r q : Regression R) (rs : List (Regression R))
      → In r (insert_regression q rs) ↔ ((q ≡ r) ⊎ In r rs)
  unfolding insert_regression
  insert_regression-In r q [] = (λ h. h, λ h. h)
  insert_regression-In r q (p ∷ rs) =
      let (to, from) = insert_regression-In r q rs in
      elim (Bool-cases (text_lt p.scenario_id q.scenario_id)) [
        | inl e ↦ rw e (
          (λ h. elim h [
            | inl k ↦ inr (inl k)
            | inr k ↦ elim (to k) [ inl a ↦ inl a | inr b ↦ inr (inr b) ]
          ]),
          (λ h. elim h [
            | inl k ↦ inr (from (inl k))
            | inr k ↦ elim k [ inl a ↦ inl a | inr b ↦ inr (from (inr b)) ]
          ]),
        )
        | inr e ↦ rw e (λ h. h, λ h. h)
      ]

  sort_regressions-In :
      (r : Regression R) (rs : List (Regression R)) → In r (sort_regressions rs) ↔ In r rs
  unfolding sort_regressions
  sort_regressions-In r [] = (λ h. h, λ h. h)
  sort_regressions-In r (q ∷ rs) =
      let (to, from) = sort_regressions-In r rs in
      let (insert_to, insert_from) = insert_regression-In r q (sort_regressions rs) in
      (
        (λ h. elim (insert_to h) [ inl k ↦ inl k | inr k ↦ inr (to k) ]),
        (λ h. insert_from (elim h [ inl k ↦ inl k | inr k ↦ inr (from k) ])),
      )

  -- In the order of their scenarios' ids.
  abbrev pub IsOrdered : List (Regression R) → Type 0
  IsOrdered [] = Unit
  IsOrdered (r ∷ rs) =
      All (λ (q : Regression R). text_lt q.scenario_id r.scenario_id ≡ false) rs × IsOrdered rs

  insert_regression-All :
      (P : Regression R → Type 0) (q : Regression R) (rs : List (Regression R))
      → P q
      → All P rs
      → All P (insert_regression q rs)
  unfolding insert_regression
  insert_regression-All P q [] hq h = (hq, tt)
  insert_regression-All P q (p ∷ rs) hq (hp, h) =
      elim (Bool-cases (text_lt p.scenario_id q.scenario_id)) [
        | inl e ↦ rw e (hp, insert_regression-All P q rs hq h)
        | inr e ↦ rw e (hq, (hp, h))
      ]

  insert_regression-IsOrdered :
      (q : Regression R) (rs : List (Regression R))
      → IsOrdered rs
      → IsOrdered (insert_regression q rs)
  unfolding insert_regression
  insert_regression-IsOrdered q [] h = (tt, tt)
  insert_regression-IsOrdered q (p ∷ rs) (first, h) =
      elim (Bool-cases (text_lt p.scenario_id q.scenario_id)) [
        | inl e ↦ rw e (
          insert_regression-All _ q rs (lt_not_gt p.scenario_id q.scenario_id e) first,
          insert_regression-IsOrdered q rs h,
        )
        | inr e ↦ rw e (
          (
            e,
            All-map {0, 0, 0}
                (λ (x : Regression R) k. not_lt_trans x.scenario_id p.scenario_id q.scenario_id k e)
                rs first,
          ),
          (first, h),
        )
      ]

  sort_regressions-IsOrdered : (rs : List (Regression R)) → IsOrdered (sort_regressions rs)
  unfolding sort_regressions
  sort_regressions-IsOrdered [] = tt
  sort_regressions-IsOrdered (r ∷ rs) =
      insert_regression-IsOrdered r (sort_regressions rs) (sort_regressions-IsOrdered rs)

  module _ (prev_scores : Dict R) (prev_iteration curr_iteration : ℕ) (threshold : R) where
    -- `r` reports that the score of `e` fell below the threshold from a score that was not below.
    pub record IsDrop (r : Regression R) (e : Text × R) : Type 0 where
      pub known : lookup e.0 prev_scores ≡ some r.prev_score
      pub was_high : fge r.prev_score threshold ≡ true
      pub is_low : flt e.1 threshold ≡ true
      pub same_id : r.scenario_id ≡ e.0
      pub same_score : r.curr_score ≡ e.1
      pub before : r.prev_iteration ≡ prev_iteration
      pub now : r.curr_iteration ≡ curr_iteration

    drop_of-IsDrop :
        (r : Regression R) (id : Text) (curr : R) (o : Option R)
        → lookup id prev_scores ≡ o
        → In r (drop_of prev_scores prev_iteration curr_iteration threshold id curr o)
        → IsDrop r (id, curr)
    unfolding drop_of
    drop_of-IsDrop r id curr none known h = absurd h
    drop_of-IsDrop r id curr (some prev) known h =
        go (fge prev threshold && flt curr threshold) refl h
      where
        found : Regression R
        found = record {
          scenario_id = id;
          prev_score = prev;
          curr_score = curr;
          prev_iteration = prev_iteration;
          curr_iteration = curr_iteration;
        }

        go :
            (b : Bool)
            → (fge prev threshold && flt curr threshold) ≡ b
            → In r (if b then found ∷ [] else [])
            → IsDrop r (id, curr)
        go true e (inl same) =
            subst (λ x. IsDrop x (id, curr)) same
              (record {
                known = known;
                was_high = ground arith;
                is_low = ground arith;
                same_id = refl;
                same_score = refl;
                before = refl;
                now = refl;
              })
        go true e (inr k) = absurd k
        go false e k = absurd k

    IsDrop-drop_of :
        (r : Regression R) (id : Text) (curr : R)
        → IsDrop r (id, curr)
        → In r (
            drop_of prev_scores prev_iteration curr_iteration threshold id curr
              (lookup id prev_scores))
    unfolding drop_of
    IsDrop-drop_of r id curr h = rw (h.known, h.was_high, h.is_low) (inl cc)

    collect_regressions_iff :
        (r : Regression R) (curr_scores : Dict R)
        → In r (collect_regressions prev_scores prev_iteration curr_iteration threshold curr_scores)
          ↔ Any (IsDrop r) curr_scores
    unfolding collect_regressions regression_of
    collect_regressions_iff r [] = (λ h. h, λ h. h)
    collect_regressions_iff r ((id, curr) ∷ scores) =
        let (to, from) = collect_regressions_iff r scores in
        (
          λ h. elim (Any-append_inv (λ x. x ≡ r) _ _ h) [
            | inl here ↦ inl (drop_of-IsDrop r id curr (lookup id prev_scores) refl here)
            | inr later ↦ inr (to later)
          ],
          λ h. elim h [
            | inl here ↦ Any-append_left (λ x. x ≡ r) _ _ (IsDrop-drop_of r id curr here)
            | inr later ↦ Any-append_right (λ x. x ≡ r) _ _ (from later)
          ],
        )

    no_drops :
        (r : Regression R) (curr_scores : Dict R)
        → is_empty prev_scores ≡ true
        → Any (IsDrop r) curr_scores
        → ⊥
    no_drops r (e ∷ scores) none_before (inl fell) =
        none-ne-some _ (sym (lookup-none e.0 prev_scores none_before) ∙ fell.known)
    no_drops r [] none_before h = absurd h
    no_drops r (e ∷ scores) none_before (inr h) = no_drops r scores none_before h

    -- The regressions that are reported are the drops of the current scores, in the order of the
    -- scenarios' ids.
    pub detect_regressions_iff :
        (curr_scores : Dict R)
        → let found =
            detect_regressions prev_scores prev_iteration curr_scores curr_iteration threshold in
          IsOrdered found × ((r : Regression R) → In r found ↔ Any (IsDrop r) curr_scores)
    unfolding detect_regressions
    detect_regressions_iff curr_scores = elim (Bool-cases (is_empty prev_scores)) [
      | inl e ↦ rw e (tt, λ r. (λ k. absurd k, no_drops r curr_scores e))
      | inr e ↦
          let found =
            collect_regressions prev_scores prev_iteration curr_iteration threshold curr_scores in
          rw e (
            sort_regressions-IsOrdered found,
            λ r.
                let (to, from) = collect_regressions_iff r curr_scores in
                let (sort_to, sort_from) = sort_regressions-In r found in
                (λ k. to (sort_to k), λ k. sort_from (from k)),
          )
    ]
