-- ===== src/Central/Ingestion/Lookup.antt =====
-- The row of one host and binding, before and after each change of the table.
use port_forge.Prelude.{
  ℕ, String, Option, none, some, List, [], ◌∷◌, ◌++◌, Bool, true, false, not, ◌&&◌, ◌==◌, ◌≡◌, refl,
  sym, ◌∙◌, arith, find?, any, select, update_first, is_some, or_else, ==_iff, eq_iff,
}
use port_forge.Central.Vocabulary.{Protocol, protocol_eq_iff}
use port_forge.Central.Tables.{Observation, CurrentPort}
use port_forge.Central.Canonical.{has_key, same_key}
use port_forge.Central.Ingestion.{
  Snapshot, is_row, is_row_for, fresh_row, refresh_row, current_row, list_current_for_host,
}

abbrev pub mapped {ℓ} : {A : Type ℓ} → (A → A) → Option A → Option A
mapped f none = none
mapped f (some x) = some (f x)

module _ {ℓ} {A : Type ℓ} (p q : A → Bool) where
  pub find?-append : (xs ys : List A) → find? p (xs ++ ys) ≡ or_else (find? p xs) (find? p ys)
  find?-append [] ys = refl
  find?-append (x ∷ xs) ys = ground (arith, find?-append xs ys)

  pub find?-congr : (xs : List A) → ((x : A) → p x ≡ q x) → find? p xs ≡ find? q xs
  find?-congr [] h = refl
  find?-congr (x ∷ xs) h = ground (arith, h x, find?-congr xs h)

  -- A change of rows that the test passes.
  pub find?-update_first_same :
      (f : A → A) (xs : List A)
      → ((x : A) → p (f x) ≡ p x)
      → ((x : A) → p x ≡ q x)
      → find? p (update_first q f xs) ≡ mapped f (find? p xs)
  find?-update_first_same f [] k h = refl
  find?-update_first_same f (x ∷ xs) k h =
      ground (arith, k x, h x, find?-update_first_same f xs k h)

  -- A change of rows that the test does not pass.
  pub find?-update_first_apart :
      (f : A → A) (xs : List A)
      → ((x : A) → p (f x) ≡ p x)
      → ((x : A) → q x ≡ true → p x ≡ false)
      → find? p (update_first q f xs) ≡ find? p xs
  find?-update_first_apart f [] k h = refl
  find?-update_first_apart f (x ∷ xs) k h =
      ground (arith, k x, h x, find?-update_first_apart f xs k h)

  pub find?-select_same :
      (xs : List A) → ((x : A) → p x ≡ q x) → find? p (select (λ x. not (q x)) xs) ≡ none
  find?-select_same [] h = refl
  find?-select_same (x ∷ xs) h = ground (arith, h x, find?-select_same xs h)

  pub find?-select_apart :
      (xs : List A)
      → ((x : A) → q x ≡ true → p x ≡ false)
      → find? p (select (λ x. not (q x)) xs) ≡ find? p xs
  find?-select_apart [] h = refl
  find?-select_apart (x ∷ xs) h = ground (arith, h x, find?-select_apart xs h)

  pub find?-select : (xs : List A) → find? p (select q xs) ≡ find? (λ x. q x && p x) xs
  find?-select [] = refl
  find?-select (x ∷ xs) = ground (arith, find?-select xs)

  pub any-find? : (xs : List A) → any p xs ≡ is_some (find? p xs)
  any-find? [] = refl
  any-find? (x ∷ xs) = ground (arith, any-find? xs)

module _ {ℓ} {A : Type ℓ} (p : A → Bool) (x : A) (xs : List A) where
  pub find?-cons_here : p x ≡ true → find? p (x ∷ xs) ≡ some x
  find?-cons_here h = ground (arith, h)

  pub find?-cons_apart : p x ≡ false → find? p (x ∷ xs) ≡ find? p xs
  find?-cons_apart h = ground (arith, h)

-- The snapshot's host and the observation's binding are these.
abbrev pub is_at : ℕ → ℕ → Protocol → String → ℕ → Observation → Bool
is_at h port protocol address host_id o = host_id == h && has_key port protocol address o

module _ (h port : ℕ) (protocol : Protocol) (address : String) where
  -- Rows of a binding pass the same test.
  pub is_row-same :
      (host_id : ℕ) (o : Observation) (r : CurrentPort)
      → is_at h port protocol address host_id o ≡ true
      → is_row h port protocol address r ≡ is_row_for host_id o r
  unfolding is_row has_key
  is_row-same host_id o r m = ground (
    arith,
    ==_iff host_id h,
    ==_iff o.port port,
    protocol_eq_iff o.protocol protocol,
    eq_iff o.bind_address address,
  )

  -- A row of another binding does not.
  pub is_row-apart :
      (host_id : ℕ) (o : Observation) (r : CurrentPort)
      → is_at h port protocol address host_id o ≡ false
      → is_row_for host_id o r ≡ true
      → is_row h port protocol address r ≡ false
  unfolding is_row has_key
  is_row-apart host_id o r m e = ground (
    arith,
    ==_iff r.host_id host_id,
    ==_iff r.observed.port o.port,
    protocol_eq_iff r.observed.protocol o.protocol,
    eq_iff r.observed.bind_address o.bind_address,
  )

  pub is_row-refresh_row :
      (s : Snapshot) (o : Observation) (r : CurrentPort)
      → is_row h port protocol address (refresh_row s o r) ≡ is_row h port protocol address r
  unfolding is_row has_key refresh_row
  is_row-refresh_row s o r = refl

  pub is_row-fresh_row :
      (s : Snapshot) (o : Observation)
      → is_row h port protocol address (fresh_row s o) ≡ is_at h port protocol address s.host_id o
  unfolding is_row
  is_row-fresh_row s o = refl

  -- What a lookup in the host's rows finds is what one in the table finds.
  pub current_row-find? :
      (host_id : ℕ) (o : Observation) (rows : List CurrentPort)
      → is_at h port protocol address host_id o ≡ true
      → current_row o (list_current_for_host host_id rows)
        ≡ find? (is_row h port protocol address) rows
  unfolding is_row has_key
  current_row-find? host_id o rows m =
      find?-select (λ r. same_key o r.observed) (λ r. r.host_id == host_id) rows
      ∙ find?-congr (is_row_for host_id o) (is_row h port protocol address) rows
          (λ r. sym (is_row-same host_id o r m))

-- An observation of a binding passes its test with every other of the binding.
pub has_key_of :
    (port : ℕ) (protocol : Protocol) (address : String) (o x : Observation)
    → has_key port protocol address o ≡ true
    → same_key o x ≡ has_key port protocol address x
unfolding has_key
has_key_of port protocol address o x h =
    ground (
      arith,
      ==_iff o.port port,
      protocol_eq_iff o.protocol protocol,
      eq_iff o.bind_address address,
    )
