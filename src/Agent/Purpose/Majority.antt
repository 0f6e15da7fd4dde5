-- ===== src/Agent/Purpose/Majority.antt =====
-- The category that is chosen, against the number of signals of each category.
use mathlib.Core.Path.{subst}
use port_forge.Prelude.{
  ℕ, ◌<◌, String, List, [], ◌∷◌, Bool, true, false, ◌≡◌, refl, sym, ap, ◌∙◌, ◌↔◌, ◌⊎◌, arith, ◌==◌,
  length, str_eq, eq_iff, Bool-cases, inl, inr, if◌then◌else◌,
}
use port_forge.Agent.Purpose.{
  Confidence, high, medium, low, unknown, Signal, PurposeDetectionResult, tally, max_votes, leading,
  by_majority, agreed, resolve_signals,
}
use port_forge.Agent.Purpose.Votes.{
  count_of, get, IsDistinct, tally-IsDistinct, get-tally, get-max_votes-le, alone_other, reaches,
  reaches_second, attained, select-nothing,
}

-- More signals are of this category than of any other one.
unfoldable pub IsMajority : String → List Signal → Type 0
IsMajority c ss = (other : String) → str_eq c other ≡ false → count_of other ss < count_of c ss

abbrev pub is_decided : Confidence → Bool
is_decided high = true
is_decided medium = true
is_decided low = false
is_decided unknown = false

abbrev pub IsChosen : String → PurposeDetectionResult → Type 0
IsChosen c d = (is_decided d.confidence ≡ true) × (d.category ≡ c)

only_one :
    (c other : String) (vs : List (String × ℕ))
    → length vs ≡ 1
    → str_eq c other ≡ false
    → 0 < get c vs
    → get other vs ≡ 0
only_one c other [] l n p = refl
only_one c other ((d, k) ∷ []) l n p =
    ground (arith, n, p, eq_iff d c, eq_iff d other, eq_iff c other)
only_one c other (v ∷ w ∷ vs) l n p = absurd (omega (arith, l))

module _ (s : Signal) (ss : List Signal) where
  votes : List (String × ℕ)
  votes = tally [] (s ∷ ss)

  counted : (c : String) → get c votes ≡ count_of c (s ∷ ss)
  unfolding votes
  counted c = omega (arith, get-tally c [] (s ∷ ss))

  first_counted : 0 < get s.category votes
  first_counted = ground (arith, counted s.category, eq_iff s.category s.category)

  some_votes : 0 < max_votes votes
  some_votes = omega (arith, first_counted, get-max_votes-le s.category votes)

  distinct : IsDistinct votes
  unfolding votes
  distinct = tally-IsDistinct [] (s ∷ ss) tt

  -- A majority is of the category that alone reaches the most votes.
  not_beaten :
      (c d : String) → IsMajority c (s ∷ ss) → get d votes ≡ max_votes votes → str_eq c d ≡ true
  unfolding IsMajority
  not_beaten c d j e = elim (Bool-cases (str_eq c d)) [
    | inl q ↦ q
    | inr q ↦ absurd (omega (arith, j d q, e, counted c, counted d, get-max_votes-le c votes))
  ]

  by_majority-IsChosen :
      (c : String) (ls : List (String × ℕ))
      → leading votes ≡ ls
      → IsChosen c (by_majority (s ∷ ss) ls) ↔ IsMajority c (s ∷ ss)
  unfolding by_majority IsMajority
  by_majority-IsChosen c [] e = (
    λ h. absurd (cc h.0),
    λ j. absurd (
        ground
          (arith, attained votes some_votes, select-nothing (λ v. v.1 == max_votes votes) votes e)),
  )
  by_majority-IsChosen c (v ∷ []) e =
      let top = reaches (max_votes votes) votes v [] distinct e in
      (
        λ h other n.
            let n' : str_eq v.0 other ≡ false = ap (λ x. str_eq x other) h.1 ∙ n in
            ap_lt h.1 (
              omega (
                arith,
                alone_other (max_votes votes) other votes v (omega arith) e n' some_votes,
                top,
                counted other,
                counted v.0,
              )),
        λ j. (refl, sym ((eq_iff c v.0).0 (not_beaten c v.0 j top))),
      )
    where
      ap_lt : {x : String} {n : ℕ} → x ≡ c → n < count_of x (s ∷ ss) → n < count_of c (s ∷ ss)
      ap_lt {x = x} {n = n} q l = subst (λ y. n < count_of y (s ∷ ss)) q l
  by_majority-IsChosen c (v ∷ w ∷ ls) e =
      let top = reaches (max_votes votes) votes v (w ∷ ls) distinct e in
      let second = reaches_second (max_votes votes) votes v w ls distinct e in
      (
        λ h. absurd (cc h.0),
        λ j. absurd (
            ground (
              arith,
              not_beaten c v.0 j top,
              not_beaten c w.0 j second.0,
              second.1,
              eq_iff c v.0,
              eq_iff c w.0,
              eq_iff v.0 w.0,
            )),
      )

  agreed-IsChosen :
      (c : String) → length votes ≡ 1 → IsChosen c (agreed s ss) ↔ IsMajority c (s ∷ ss)
  unfolding agreed IsMajority
  agreed-IsChosen c l = (
    λ h other n.
        let n' : str_eq s.category other ≡ false = ap (λ x. str_eq x other) h.1 ∙ n in
        subst (λ x. count_of other (s ∷ ss) < count_of x (s ∷ ss)) h.1
          (omega (
            arith,
            only_one s.category other votes l n' first_counted,
            first_counted,
            counted other,
            counted s.category,
          )),
    λ j. (
      refl,
      elim (Bool-cases (str_eq c s.category)) [
        | inl q ↦ sym ((eq_iff c s.category).0 q)
        | inr q ↦ absurd (
            omega (
              arith,
              j s.category q,
              only_one s.category c votes l
                  (ground (arith, q, eq_iff c s.category, eq_iff s.category c)) first_counted,
              counted c,
            ))
      ],
    ),
  )

-- Of a port with at least one signal, a category is chosen, with high or medium confidence, exactly
-- if more of the signals are of it than of any other category; where there is none, the category is
-- "unknown" with low confidence.
pub resolve_signals-IsMajority :
    (s : Signal) (ss : List Signal)
    → ((c : String) → IsChosen c (resolve_signals (s ∷ ss)) ↔ IsMajority c (s ∷ ss))
      × ((is_decided (resolve_signals (s ∷ ss)).confidence ≡ true)
          ⊎ (((resolve_signals (s ∷ ss)).category ≡ "unknown")
              × ((resolve_signals (s ∷ ss)).confidence ≡ low)))
unfolding resolve_signals votes by_majority agreed
resolve_signals-IsMajority s ss = (
  λ c. for_length c (length (votes s ss) == 1) refl,
  for_kind (length (votes s ss) == 1) (leading (votes s ss)),
)
  where
    for_length :
        (c : String) (b : Bool)
        → (length (votes s ss) == 1) ≡ b
        → IsChosen c (if b then agreed s ss else by_majority (s ∷ ss) (leading (votes s ss)))
          ↔ IsMajority c (s ∷ ss)
    for_length c true e = agreed-IsChosen s ss c (ground (arith, e))
    for_length c false e = by_majority-IsChosen s ss c (leading (votes s ss)) refl

    for_kind :
        (b : Bool) (ls : List (String × ℕ))
        → (is_decided (if b then agreed s ss else by_majority (s ∷ ss) ls).confidence ≡ true)
          ⊎ (((if b then agreed s ss else by_majority (s ∷ ss) ls).category ≡ "unknown")
              × ((if b then agreed s ss else by_majority (s ∷ ss) ls).confidence ≡ low))
    for_kind true ls = inl refl
    for_kind false [] = inr (refl, refl)
    for_kind false (v ∷ []) = inl refl
    for_kind false (v ∷ w ∷ ls) = inr (refl, refl)
