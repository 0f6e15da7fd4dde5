-- ===== src/Prelude/Lists.antt =====
-- Lists as tables: tests over the rows, selection, update, ordering and limits, with native lengths.
use Prim.Native.Nat.{ℕ, zero, suc, ◌+◌, ◌≤◌}
use mathlib.Core.Path.{◌≡◌, refl, ap}
use mathlib.Core.Bool.{Bool, false, ◌&&◌, ◌||◌}
use mathlib.Core.Option.{Option, none, some}
use mathlib.Core.List.{List, [], ◌∷◌, ◌++◌, map}
use native.Mathlib.Omega.{arith}
use port_forge.Prelude.Tests.{leb, if◌then◌else◌}

-- Every row satisfies `P`.
abbrev pub All {ℓ κ} : {A : Type ℓ} → (A → Type κ) → List A → Type κ
All P [] = Unit
All P (y ∷ ys) = P y × All P ys

module _ {ℓ} {A : Type ℓ} where
  abbrev pub length : List A → ℕ
  length [] = 0
  length (x ∷ xs) = suc (length xs)

  abbrev pub take : ℕ → List A → List A
  take zero xs = []
  take (suc n) [] = []
  take (suc n) (x ∷ xs) = x ∷ take n xs

  -- `any(p(x) for x in xs)`
  abbrev pub any : (A → Bool) → List A → Bool
  any p [] = false
  any p (x ∷ xs) = p x || any p xs

  -- `next((x for x in xs if p(x)), None)`
  abbrev pub find? : (A → Bool) → List A → Option A
  find? p [] = none
  find? p (x ∷ xs) = let rest = find? p xs in if p x then some x else rest

  -- `[x for x in xs if p(x)]`, a WHERE clause
  abbrev pub select : (A → Bool) → List A → List A
  select p [] = []
  select p (x ∷ xs) = let rest = select p xs in if p x then x ∷ rest else rest

  -- An UPDATE of the rows that satisfy `p`.
  abbrev pub update : (A → Bool) → (A → A) → List A → List A
  update p f [] = []
  update p f (x ∷ xs) = (if p x then f x else x) ∷ update p f xs

  -- A change of the first row that satisfies `p`: of the object that a lookup by `p` has returned.
  abbrev pub update_first : (A → Bool) → (A → A) → List A → List A
  update_first p f [] = []
  update_first p f (x ∷ xs) = let rest = update_first p f xs in if p x then f x ∷ xs else x ∷ rest

  -- ORDER BY a number, ascending; rows with one key keep their order.
  abbrev pub insert_by : (A → ℕ) → A → List A → List A
  insert_by key x [] = x ∷ []
  insert_by key x (y ∷ ys) =
      let rest = insert_by key x ys in if leb (key x) (key y) then x ∷ y ∷ ys else y ∷ rest

  abbrev pub order_by : (A → ℕ) → List A → List A
  order_by key [] = []
  order_by key (x ∷ xs) = insert_by key x (order_by key xs)

  pub length-append : (xs ys : List A) → length (xs ++ ys) ≡ length xs + length ys
  length-append [] ys = omega arith
  length-append (x ∷ xs) ys = omega (arith, length-append xs ys)

  pub any-append : (p : A → Bool) (xs ys : List A) → any p (xs ++ ys) ≡ (any p xs || any p ys)
  any-append p [] ys = refl
  any-append p (x ∷ xs) ys = ground (arith, any-append p xs ys)

  pub any-insert_by :
      (p : A → Bool) (key : A → ℕ) (x : A) (xs : List A)
      → any p (insert_by key x xs) ≡ (p x || any p xs)
  any-insert_by p key x [] = refl
  any-insert_by p key x (y ∷ ys) = ground (arith, any-insert_by p key x ys)

  -- Ordering keeps every row.
  pub any-order_by : (p : A → Bool) (key : A → ℕ) (xs : List A) → any p (order_by key xs) ≡ any p xs
  any-order_by p key [] = refl
  any-order_by p key (x ∷ xs) =
      ground (arith, any-insert_by p key x (order_by key xs), any-order_by p key xs)

  pub length-insert_by :
      (key : A → ℕ) (x : A) (xs : List A) → length (insert_by key x xs) ≡ suc (length xs)
  length-insert_by key x [] = refl
  length-insert_by key x (y ∷ ys) = ground (arith, length-insert_by key x ys)

  pub length-order_by : (key : A → ℕ) (xs : List A) → length (order_by key xs) ≡ length xs
  length-order_by key [] = refl
  length-order_by key (x ∷ xs) =
      omega (arith, length-insert_by key x (order_by key xs), length-order_by key xs)

  -- A limit that the rows do not reach takes them all.
  pub take-eq : (n : ℕ) (xs : List A) → length xs ≤ n → take n xs ≡ xs
  take-eq zero [] h = refl
  take-eq zero (x ∷ xs) h = absurd (omega arith)
  take-eq (suc n) [] h = refl
  take-eq (suc n) (x ∷ xs) h = ap (◌∷◌ x) (take-eq n xs (omega arith))

  pub any-congr : (p q : A → Bool) (xs : List A) → ((x : A) → p x ≡ q x) → any p xs ≡ any q xs
  any-congr p q [] h = refl
  any-congr p q (x ∷ xs) h = ground (arith, h x, any-congr p q xs h)

  pub any-select : (p q : A → Bool) (xs : List A) → any p (select q xs) ≡ any (λ x. q x && p x) xs
  any-select p q [] = refl
  any-select p q (x ∷ xs) = ground (arith, any-select p q xs)

  pub length-select-cons :
      (p : A → Bool) (x : A) (xs : List A)
      → length (select p (x ∷ xs))
        ≡ (if p x then suc (length (select p xs)) else length (select p xs))
  length-select-cons p x xs = ground arith

  pub select-append :
      (p : A → Bool) (xs ys : List A) → select p (xs ++ ys) ≡ select p xs ++ select p ys
  select-append p [] ys = refl
  select-append p (x ∷ xs) ys = ground (arith, select-append p xs ys)

  -- A further selection finds no more rows.
  pub length-select-select-le :
      (p q : A → Bool) (xs : List A) → length (select p (select q xs)) ≤ length (select p xs)
  length-select-select-le p q [] = omega arith
  length-select-select-le p q (x ∷ xs) = ground (arith, length-select-select-le p q xs)

  -- An update that a test does not see leaves as many rows that pass it.
  pub length-select-update :
      (p q : A → Bool) (f : A → A) (xs : List A)
      → ((x : A) → p (f x) ≡ p x)
      → length (select p (update q f xs)) ≡ length (select p xs)
  length-select-update p q f [] h = refl
  length-select-update p q f (x ∷ xs) h = ground (arith, h x, length-select-update p q f xs h)

  pub length-select-congr :
      (p q : A → Bool) (xs : List A)
      → ((x : A) → p x ≡ q x)
      → length (select p xs) ≡ length (select q xs)
  length-select-congr p q [] h = refl
  length-select-congr p q (x ∷ xs) h = ground (arith, h x, length-select-congr p q xs h)

  pub length-select-select :
      (p q : A → Bool) (xs : List A)
      → length (select p (select q xs)) ≡ length (select (λ x. q x && p x) xs)
  length-select-select p q [] = refl
  length-select-select p q (x ∷ xs) = ground (arith, length-select-select p q xs)

  pub length-select-le : (p : A → Bool) (xs : List A) → length (select p xs) ≤ length xs
  length-select-le p [] = omega arith
  length-select-le p (x ∷ xs) = ground (arith, length-select-le p xs)

  pub All-append {κ} :
      (P : A → Type κ) (front back : List A) → All P front → All P back → All P (front ++ back)
  All-append P [] back f b = b
  All-append P (x ∷ front) back f b = (f.0, All-append P front back f.1 b)

module _ {ℓ κ} {A : Type ℓ} {B : Type κ} where
  pub any-map : (p : B → Bool) (f : A → B) (xs : List A) → any p (map f xs) ≡ any (λ x. p (f x)) xs
  any-map p f [] = refl
  any-map p f (x ∷ xs) = ground (arith, any-map p f xs)
