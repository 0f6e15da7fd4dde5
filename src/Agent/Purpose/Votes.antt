-- ===== src/Agent/Purpose/Votes.antt =====
-- The counts of a dictionary of votes: what each entry holds, and which reach the most.
use port_forge.Prelude.{
  ℕ, suc, ◌+◌, ◌≤◌, ◌<◌, String, List, [], ◌∷◌, Bool, true, false, ◌≡◌, refl, ap, ◌∙◌, arith, any,
  ◌==◌, ltb, select, length, str_eq, eq_iff, Bool-cases, inl, inr, if◌then◌else◌,
}
use port_forge.Agent.Purpose.{Signal, vote, tally, max_votes}

-- The signals of a category
abbrev pub count_of : String → List Signal → ℕ
count_of c ss = length (select (λ s. str_eq s.category c) ss)

abbrev pub get : String → List (String × ℕ) → ℕ
get c [] = 0
get c ((d, n) ∷ vs) = let rest = get c vs in if str_eq d c then n else rest

abbrev pub is_named : String → List (String × ℕ) → Bool
is_named c vs = any (λ v. str_eq v.0 c) vs

abbrev pub IsDistinct : List (String × ℕ) → Type 0
IsDistinct [] = Unit
IsDistinct ((d, n) ∷ vs) = (is_named d vs ≡ false) × IsDistinct vs

pub get-vote :
    (c d : String) (vs : List (String × ℕ))
    → get c (vote d vs) ≡ (if str_eq d c then suc (get c vs) else get c vs)
unfolding vote
get-vote c d [] = ground arith
get-vote c d ((e, n) ∷ vs) = ground (arith, get-vote c d vs, eq_iff e d, eq_iff e c, eq_iff d c)

pub is_named-vote :
    (c d : String) (vs : List (String × ℕ))
    → str_eq d c ≡ false
    → is_named c (vote d vs) ≡ is_named c vs
unfolding vote
is_named-vote c d [] h = ground (arith, h)
is_named-vote c d ((e, n) ∷ vs) h = ground (arith, h, is_named-vote c d vs)

pub vote-IsDistinct : (d : String) (vs : List (String × ℕ)) → IsDistinct vs → IsDistinct (vote d vs)
unfolding vote
vote-IsDistinct d [] h = (refl, tt)
vote-IsDistinct d ((e, n) ∷ vs) h = split (str_eq e d) refl (vote-IsDistinct d vs h.1)
  where
    split :
        (b : Bool)
        → str_eq e d ≡ b
        → IsDistinct (vote d vs)
        → IsDistinct (if b then (e, suc n) ∷ vs else (e, n) ∷ vote d vs)
    split true q k = h
    split false q k = (is_named-vote e d vs (ground (arith, q, eq_iff d e, eq_iff e d)) ∙ h.0, k)

pub tally-IsDistinct :
    (vs : List (String × ℕ)) (ss : List Signal) → IsDistinct vs → IsDistinct (tally vs ss)
unfolding tally
tally-IsDistinct vs [] h = h
tally-IsDistinct vs (s ∷ ss) h =
    tally-IsDistinct (vote s.category vs) ss (vote-IsDistinct s.category vs h)

pub get-tally :
    (c : String) (vs : List (String × ℕ)) (ss : List Signal)
    → get c (tally vs ss) ≡ get c vs + count_of c ss
unfolding tally
get-tally c vs [] = omega arith
get-tally c vs (s ∷ ss) =
    ground (arith, get-tally c (vote s.category vs) ss, get-vote c s.category vs)

pub get-max_votes-le : (c : String) (vs : List (String × ℕ)) → get c vs ≤ max_votes vs
get-max_votes-le c [] = omega arith
get-max_votes-le c ((d, n) ∷ vs) = ground (arith, get-max_votes-le c vs)

abbrev pub name_of : String → List (String × ℕ) → String
name_of d [] = d
name_of d (x ∷ xs) = x.0

abbrev pub rest_of : List (String × ℕ) → List (String × ℕ)
rest_of [] = []
rest_of (x ∷ xs) = xs

-- The entries that reach a bound, where one does, and where two do.
module _ (m : ℕ) where
  pub below :
      (c : String) (vs : List (String × ℕ))
      → max_votes vs ≤ m
      → select (λ v. v.1 == m) vs ≡ []
      → 0 < m
      → get c vs < m
  below c [] b e p = p
  below c ((d, n) ∷ vs) b e p = ground (arith, below c vs, b, e, p)

  -- A name that is not there is not among the selected either.
  pub unnamed :
      (c : String) (vs : List (String × ℕ)) (v : String × ℕ) (ws : List (String × ℕ))
      → is_named c vs ≡ false
      → select (λ v. v.1 == m) vs ≡ v ∷ ws
      → str_eq c v.0 ≡ false
  unnamed c [] v ws h e = absurd (cc e)
  unnamed c ((d, n) ∷ vs) v ws h e = elim (Bool-cases (n == m)) [
    | inl q ↦
        let k : ((d, n) ∷ select (λ v. v.1 == m) vs) ≡ v ∷ ws = ground (arith, q, e) in
        let first : d ≡ v.0 = ap (λ l. name_of d l) k in
        ground (arith, h, first, eq_iff d c, eq_iff c v.0)
    | inr q ↦ unnamed c vs v ws (ground (arith, h)) (ground (arith, q, e))
  ]

  pub alone_other :
      (c : String) (vs : List (String × ℕ)) (v : String × ℕ)
      → max_votes vs ≤ m
      → select (λ v. v.1 == m) vs ≡ v ∷ []
      → str_eq v.0 c ≡ false
      → 0 < m
      → get c vs < m
  alone_other c [] v b e h p = p
  alone_other c ((d, n) ∷ vs) v b e h p = elim (Bool-cases (n == m)) [
    | inl q ↦
        let k : ((d, n) ∷ select (λ v. v.1 == m) vs) ≡ v ∷ [] = ground (arith, q, e) in
        let first : d ≡ v.0 = ap (λ l. name_of d l) k in
        let none_left : select (λ v. v.1 == m) vs ≡ [] = ap rest_of k in
        ground
          (arith, b, h, first, eq_iff d c, eq_iff v.0 c, below c vs (ground (arith, b)) none_left p)
    | inr q ↦ ground (arith, q, b, e, h, p, alone_other c vs v)
  ]

  pub reaches :
      (vs : List (String × ℕ)) (v : String × ℕ) (ws : List (String × ℕ))
      → IsDistinct vs
      → select (λ v. v.1 == m) vs ≡ v ∷ ws
      → get v.0 vs ≡ m
  reaches [] v ws h e = absurd (cc e)
  reaches ((d, n) ∷ vs) v ws h e = elim (Bool-cases (n == m)) [
    | inl q ↦
        let k : ((d, n) ∷ select (λ v. v.1 == m) vs) ≡ v ∷ ws = ground (arith, q, e) in
        let first : d ≡ v.0 = ap (λ l. name_of d l) k in ground (arith, first, q, eq_iff d v.0)
    | inr q ↦
        let k : select (λ v. v.1 == m) vs ≡ v ∷ ws = ground (arith, q, e) in
        ground (arith, unnamed d vs v ws h.0 k, reaches vs v ws h.1 k)
  ]

  pub reaches_second :
      (vs : List (String × ℕ)) (v w : String × ℕ) (ws : List (String × ℕ))
      → IsDistinct vs
      → select (λ v. v.1 == m) vs ≡ v ∷ w ∷ ws
      → (get w.0 vs ≡ m) × (str_eq v.0 w.0 ≡ false)
  reaches_second [] v w ws h e = absurd (cc e)
  reaches_second ((d, n) ∷ vs) v w ws h e = elim (Bool-cases (n == m)) [
    | inl q ↦
        let k : ((d, n) ∷ select (λ v. v.1 == m) vs) ≡ v ∷ w ∷ ws = ground (arith, q, e) in
        let first : d ≡ v.0 = ap (λ l. name_of d l) k in
        let later : select (λ v. v.1 == m) vs ≡ w ∷ ws = ap rest_of k in
        let other = unnamed d vs w ws h.0 later in
        (
          ground (arith, other, reaches vs w ws h.1 later),
          ground (arith, other, first, eq_iff d w.0, eq_iff v.0 w.0),
        )
    | inr q ↦
        let k : select (λ v. v.1 == m) vs ≡ v ∷ w ∷ ws = ground (arith, q, e) in
        let r = reaches_second vs v w ws h.1 k in
        (ground (arith, r.0, named_second vs v w ws k, h.0, eq_iff d w.0), r.1)
  ]
    where
      named_second :
          (vs : List (String × ℕ)) (v w : String × ℕ) (ws : List (String × ℕ))
          → select (λ v. v.1 == m) vs ≡ v ∷ w ∷ ws
          → is_named d vs ≡ false
          → str_eq d w.0 ≡ false
      named_second [] v w ws e h = absurd (cc e)
      named_second ((d', n') ∷ vs) v w ws e h = elim (Bool-cases (n' == m)) [
        | inl q ↦
            let k : ((d', n') ∷ select (λ v. v.1 == m) vs) ≡ v ∷ w ∷ ws = ground (arith, q, e) in
            unnamed d vs w ws (ground (arith, h)) (ap rest_of k)
        | inr q ↦ named_second vs v w ws (ground (arith, q, e)) (ground (arith, h))
      ]

pub attained :
    (vs : List (String × ℕ)) → 0 < max_votes vs → any (λ v. v.1 == max_votes vs) vs ≡ true
attained [] p = absurd (omega (arith, p))
attained ((d, n) ∷ vs) p = elim (Bool-cases (ltb n (max_votes vs))) [
  | inl l ↦ ground (arith, l, attained vs)
  | inr l ↦ ground (arith, l)
]

pub select-nothing :
    (p : String × ℕ → Bool) (vs : List (String × ℕ)) → select p vs ≡ [] → any p vs ≡ false
select-nothing p [] e = refl
select-nothing p (v ∷ vs) e = ground (arith, e, select-nothing p vs)
