-- ===== src/Agent/Discovery/Merge.antt =====
-- Which listeners of a binding the merged view has: Docker's where Docker sees it, else the native.
use port_forge.Prelude.{
  ℕ, suc, String, Option, none, some, List, [], ◌∷◌, ◌++◌, map, Bool, true, false, not, ◌&&◌, ◌≡◌,
  refl, ap, ◌∙◌, arith, any, any-congr, find?, select, select-append, length, length-append,
  length-select-congr, length-select-select, is_some, eq_iff, ==_iff, Bool-cases, inl, inr,
  if◌then◌else◌,
}
use port_forge.Central.Vocabulary.{Protocol, protocol_eq_iff}
use port_forge.Agent.Records.{Listener}
use port_forge.Agent.Evaluate.{logical_port}
use port_forge.Agent.Discovery.{
  before, insert_sorted_by, sorted_by, is_bound, same_binding, with_process, native_match,
  joined_with, merged_docker, is_consumed, merge_native_and_docker, published_port,
}

module _ (p : Listener → Bool) (number : Listener → ℕ) where
  length-select-insert_sorted_by :
      (x : Listener) (xs : List Listener)
      → length (select p (insert_sorted_by number x xs))
        ≡ (if p x then suc (length (select p xs)) else length (select p xs))
  unfolding insert_sorted_by
  length-select-insert_sorted_by x [] = ground arith
  length-select-insert_sorted_by x (y ∷ ys) =
      ground (arith, length-select-insert_sorted_by x ys, Bool-cases (before number y x))

  length-select-sorted_by :
      (xs : List Listener) → length (select p (sorted_by number xs)) ≡ length (select p xs)
  unfolding sorted_by
  length-select-sorted_by [] = refl
  length-select-sorted_by (x ∷ xs) =
      ground
        (arith, length-select-insert_sorted_by x (sorted_by number xs), length-select-sorted_by xs)

length-select-map :
    (p : Listener → Bool) (f : Listener → Listener) (xs : List Listener)
    → ((x : Listener) → p (f x) ≡ p x)
    → length (select p (map f xs)) ≡ length (select p xs)
length-select-map p f [] h = refl
length-select-map p f (x ∷ xs) h = ground (arith, h x, length-select-map p f xs h)

any-is_some {ℓ} : {A : Type ℓ} (p : A → Bool) (xs : List A) → is_some (find? p xs) ≡ any p xs
any-is_some p [] = refl
any-is_some p (x ∷ xs) = ground (arith, any-is_some p xs)

length-select-none {ℓ} :
    {A : Type ℓ} (p q : A → Bool) (xs : List A)
    → any p xs ≡ false
    → length (select (λ x. p x && q x) xs) ≡ 0
length-select-none p q [] h = refl
length-select-none p q (x ∷ xs) h = ground (arith, h, length-select-none p q xs)

any-and {ℓ} :
    {A : Type ℓ} (c : Bool) (p : A → Bool) (xs : List A) → any (λ x. c && p x) xs ≡ (c && any p xs)
any-and c p [] = ground arith
any-and c p (x ∷ xs) = ground (arith, any-and c p xs)

module _ (protocol : Protocol) (address : String) (port : ℕ) where
  is_bound-same_binding :
      (a b : Listener)
      → is_bound protocol address port a ≡ true
      → same_binding a b ≡ is_bound protocol address port b
  unfolding is_bound
  is_bound-same_binding a b h = ground (
    arith,
    h,
    protocol_eq_iff a.protocol protocol,
    eq_iff a.bind_address address,
    ==_iff (logical_port a) port,
  )

  same_binding-is_bound :
      (a b : Listener)
      → same_binding a b ≡ true
      → is_bound protocol address port b ≡ is_bound protocol address port a
  unfolding is_bound
  same_binding-is_bound a b h = ground (
    arith,
    h,
    protocol_eq_iff b.protocol a.protocol,
    eq_iff b.bind_address a.bind_address,
    ==_iff (logical_port b) (logical_port a),
  )

  is_bound-merged_docker :
      (natives : List Listener) (d : Listener)
      → is_bound protocol address port (merged_docker natives d) ≡ is_bound protocol address port d
  unfolding merged_docker is_bound
  is_bound-merged_docker natives d = for_match (native_match natives d)
    where
      for_match :
          (o : Option Listener)
          → is_bound protocol address port (joined_with d o) ≡ is_bound protocol address port d
      for_match none = refl
      for_match (some n) = refl

  -- Of a native port of the binding, consumed means that Docker and the native scan both see it.
  is_consumed-is_bound :
      (natives dockers : List Listener) (p : Listener)
      → is_bound protocol address port p ≡ true
      → is_consumed natives dockers p ≡ (
          any (is_bound protocol address port) natives
          && any (is_bound protocol address port) dockers)
  unfolding is_consumed
  is_consumed-is_bound natives dockers p h =
      any-congr (λ d. is_some (native_match natives d) && same_binding p d)
        (λ d. any (is_bound protocol address port) natives && is_bound protocol address port d)
        dockers matched
      ∙ any-and (any (is_bound protocol address port) natives) (is_bound protocol address port)
          dockers
    where
      matched :
          (d : Listener)
          → (is_some (native_match natives d) && same_binding p d)
            ≡ (any (is_bound protocol address port) natives && is_bound protocol address port d)
      matched d = elim (Bool-cases (is_bound protocol address port d)) [
        | inl b ↦ ground (
          arith,
          b,
          is_bound-same_binding p d h,
          any-is_some (same_binding d) natives,
          any-congr (same_binding d) (is_bound protocol address port) natives
              (λ n. is_bound-same_binding d n b),
        )
        | inr b ↦ ground (arith, b, is_bound-same_binding p d h)
      ]

  module _ (q : Listener → Bool) (natives dockers : List Listener) where
    -- The native ports that are left.
    left_natives :
        length (
          select
            (λ p. is_bound protocol address port p && q p)
            (select (λ p. not (is_consumed natives dockers p)) natives))
        ≡ (if any (is_bound protocol address port) dockers
            then 0
            else length (select (λ p. is_bound protocol address port p && q p) natives))
    left_natives =
        let both =
          any (is_bound protocol address port) natives
          && any (is_bound protocol address port) dockers in
        length-select-select (λ p. is_bound protocol address port p && q p)
          (λ p. not (is_consumed natives dockers p)) natives
        ∙ length-select-congr
            (λ p. not (is_consumed natives dockers p) && (is_bound protocol address port p && q p))
            (λ p. is_bound protocol address port p && (not both && q p)) natives unconsumed
        ∙ elim (Bool-cases (any (is_bound protocol address port) natives)) [
          | inl n ↦ elim (Bool-cases (any (is_bound protocol address port) dockers)) [
            | inl d ↦
                length-select-congr (λ p. is_bound protocol address port p && (not both && q p))
                  (λ p. false) natives (λ p. ground (arith, n, d))
                ∙ length-select-nothing natives
                ∙ ground (arith, d)
            | inr d ↦
                length-select-congr (λ p. is_bound protocol address port p && (not both && q p))
                  (λ p. is_bound protocol address port p && q p) natives (λ p. ground (arith, n, d))
                ∙ ground (arith, d)
          ]
          | inr n ↦
              length-select-none (is_bound protocol address port) (λ p. not both && q p) natives n
              ∙ ground (
                arith,
                length-select-none (is_bound protocol address port) q natives n,
                Bool-cases (any (is_bound protocol address port) dockers),
              )
        ]
      where
        unconsumed :
            (p : Listener)
            → (not (is_consumed natives dockers p) && (is_bound protocol address port p && q p)) ≡ (
                is_bound protocol address port p
                && (not (
                      any (is_bound protocol address port) natives
                      && any (is_bound protocol address port) dockers)
                    && q p))
        unconsumed p = elim (Bool-cases (is_bound protocol address port p)) [
          | inl b ↦ ground (arith, b, is_consumed-is_bound natives dockers p b)
          | inr b ↦ ground (arith, b)
        ]

        length-select-nothing : (xs : List Listener) → length (select (λ p. false) xs) ≡ 0
        length-select-nothing [] = refl
        length-select-nothing (x ∷ xs) = length-select-nothing xs

    -- For each binding and each test that does not look at what a native match brings: the merged
    -- view has as many ports of the binding that pass it as Docker's scan if Docker sees the binding,
    -- and else as many as the native scan.
    pub merge-is_bound :
        ((d n : Listener) → q (with_process d n) ≡ q d)
        → length (
            select
              (λ p. is_bound protocol address port p && q p)
              (merge_native_and_docker natives dockers))
          ≡ (if any (is_bound protocol address port) dockers
              then length (select (λ p. is_bound protocol address port p && q p) dockers)
              else length (select (λ p. is_bound protocol address port p && q p) natives))
    unfolding merge_native_and_docker merged_docker
    merge-is_bound k =
        let here : Listener → Bool = λ p. is_bound protocol address port p && q p in
        let kept = select (λ p. not (is_consumed natives dockers p)) natives in
        length-select-sorted_by here published_port (map (merged_docker natives) dockers ++ kept)
        ∙ ap length (select-append here (map (merged_docker natives) dockers) kept)
        ∙ length-append (select here (map (merged_docker natives) dockers)) (select here kept)
        ∙ ground (
          arith,
          length-select-map here (merged_docker natives) dockers same_test,
          left_natives,
          length-select-unseen dockers,
          Bool-cases (any (is_bound protocol address port) dockers),
        )
      where
        unseen : (d : Listener) (o : Option Listener) → q (joined_with d o) ≡ q d
        unseen d none = refl
        unseen d (some n) = k d n

        same_test :
            (d : Listener)
            → (is_bound protocol address port (merged_docker natives d)
                && q (merged_docker natives d))
              ≡ (is_bound protocol address port d && q d)
        same_test d =
            ground (arith, is_bound-merged_docker natives d, unseen d (native_match natives d))

        length-select-unseen :
            (ds : List Listener)
            → any (is_bound protocol address port) ds ≡ false
            → length (select (λ p. is_bound protocol address port p && q p) ds) ≡ 0
        length-select-unseen ds e = length-select-none (is_bound protocol address port) q ds e
