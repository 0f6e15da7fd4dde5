-- ===== src/Central/Upgrades/Rows.antt =====
-- The table of upgrades: its ids, and how many upgrades of a host are in flight in it.
use port_forge.Prelude.{
  ℕ, suc, ◌+◌, ◌≤◌, ◌<◌, String, none, some, List, [], ◌∷◌, ◌++◌, Bool, true, false, ◌==◌, ◌≡◌,
  refl, arith, ap, ◌∙◌, any, select, update, update_first, length, length-append, select-append,
  ==_iff, if◌then◌else◌,
}
use port_forge.Central.Tables.{HostUpgrade}
use port_forge.Central.Upgrades.{is_active_for, non_terminal_for_host, upgrade_by_id, as_failed}

-- How many upgrades of a host are in flight.
abbrev pub in_flight : ℕ → List HostUpgrade → ℕ
in_flight host_id rows = length (select (is_active_for host_id) rows)

-- `id` is the primary key: no two rows have one id.
abbrev pub HasKey : List HostUpgrade → Type 0
HasKey [] = Unit
HasKey (u ∷ rows) = (any (λ w. w.id == u.id) rows ≡ false) × HasKey rows

-- The rows' ids are those that the generator gave for them, in order.
abbrev pub IdsFrom : (ℕ → ℕ) → ℕ → List HostUpgrade → Type 0
IdsFrom uuid n [] = Unit
IdsFrom uuid n (u ∷ rows) = (u.id ≡ uuid n) × IdsFrom uuid (suc n) rows

pub record IsSingle (uuid : ℕ → ℕ) (rows : List HostUpgrade) : Type 0 where
  pub single : (h : ℕ) → in_flight h rows ≤ 1
  pub ids : IdsFrom uuid 0 rows

pub in_flight-append :
    (h : ℕ) (rows : List HostUpgrade) (u : HostUpgrade)
    → in_flight h (rows ++ u ∷ []) ≡ in_flight h rows + (if is_active_for h u then 1 else 0)
in_flight-append h rows u = ground (
  arith,
  select-append (is_active_for h) rows (u ∷ []),
  length-append (select (is_active_for h) rows) (select (is_active_for h) (u ∷ [])),
)

pub IdsFrom-append :
    (uuid : ℕ → ℕ) (n : ℕ) (rows : List HostUpgrade) (u : HostUpgrade)
    → IdsFrom uuid n rows
    → u.id ≡ uuid (n + length rows)
    → IdsFrom uuid n (rows ++ u ∷ [])
IdsFrom-append uuid n [] u k e = (e ∙ ap uuid (omega arith), tt)
IdsFrom-append uuid n (x ∷ rows) u k e =
    (k.0, IdsFrom-append uuid (suc n) rows u k.1 (e ∙ ap uuid (omega arith)))

-- An id of the generator is that of no row before it was drawn.
pub new_id :
    (uuid : ℕ → ℕ)
    → ((i j : ℕ) → uuid i ≡ uuid j → i ≡ j)
    → (n m : ℕ) (rows : List HostUpgrade) → IdsFrom uuid n rows
    → m < n
    → any (λ w. w.id == uuid m) rows ≡ false
new_id uuid inj n m [] k lt = refl
new_id uuid inj n m (x ∷ rows) k lt =
    ground
      (arith, new_id uuid inj (suc n) m rows k.1 (omega arith), inj n m, ==_iff x.id (uuid m), k.0)

pub IdsFrom-HasKey :
    (uuid : ℕ → ℕ)
    → ((i j : ℕ) → uuid i ≡ uuid j → i ≡ j)
    → (n : ℕ) (rows : List HostUpgrade) → IdsFrom uuid n rows
    → HasKey rows
IdsFrom-HasKey uuid inj n [] k = tt
IdsFrom-HasKey uuid inj n (x ∷ rows) k = (
  ap (λ i. any (λ w. w.id == i) rows) k.0 ∙ new_id uuid inj (suc n) n rows k.1 (omega arith),
  IdsFrom-HasKey uuid inj (suc n) rows k.1,
)

pub length-update_first :
    (p : HostUpgrade → Bool) (f : HostUpgrade → HostUpgrade) (rows : List HostUpgrade)
    → length (update_first p f rows) ≡ length rows
length-update_first p f [] = refl
length-update_first p f (x ∷ rows) = ground (arith, length-update_first p f rows)

-- An absent row: none is in flight.
pub in_flight-none :
    (h : ℕ) (rows : List HostUpgrade) → non_terminal_for_host h rows ≡ none → in_flight h rows ≡ 0
in_flight-none h [] e = refl
in_flight-none h (x ∷ rows) e = ground (arith, in_flight-none h rows)

module _ (f : HostUpgrade → HostUpgrade) (id : ℕ) (keep : (u : HostUpgrade) → (f u).id ≡ u.id) where
  pub IdsFrom-update_first :
      (uuid : ℕ → ℕ) (n : ℕ) (rows : List HostUpgrade)
      → IdsFrom uuid n rows
      → IdsFrom uuid n (update_first (λ w. w.id == id) f rows)
  IdsFrom-update_first uuid n [] k = tt
  IdsFrom-update_first uuid n (x ∷ rows) k =
      ground (arith, keep x, IdsFrom-update_first uuid (suc n) rows k.1, k)

  -- A change of one row moves the count by that row alone.
  pub in_flight-update_first :
      (h : ℕ) (rows : List HostUpgrade) {u : HostUpgrade}
      → upgrade_by_id id rows ≡ some u
      → in_flight h (update_first (λ w. w.id == id) f rows) + (if is_active_for h u then 1 else 0)
        ≡ in_flight h rows + (if is_active_for h (f u) then 1 else 0)
  in_flight-update_first h [] e = cc
  in_flight-update_first h (x ∷ rows) {u} e = ground (arith, in_flight-update_first h rows {u = u})

pub found_id :
    (h k : ℕ) (rows : List HostUpgrade) {w : HostUpgrade}
    → any (λ w. w.id == k) rows ≡ false
    → non_terminal_for_host h rows ≡ some w
    → (w.id == k) ≡ false
found_id h k [] f e = cc
found_id h k (x ∷ rows) {w} f e = ground (arith, found_id h k rows {w = w})

pub found_active :
    (h : ℕ) (rows : List HostUpgrade) {w : HostUpgrade}
    → HasKey rows
    → non_terminal_for_host h rows ≡ some w
    → (upgrade_by_id w.id rows ≡ some w) × (is_active_for h w ≡ true)
found_active h [] k e = cc
found_active h (x ∷ rows) {w} k e = ground (
  arith,
  found_active h rows {w = w} k.1,
  found_id h x.id rows {w = w} k.0,
  ==_iff x.id w.id,
  ==_iff w.id x.id,
)

pub found_by_id :
    (id : ℕ) (rows : List HostUpgrade) {w : HostUpgrade}
    → upgrade_by_id id rows ≡ some w
    → w.id ≡ id
found_by_id id [] e = cc
found_by_id id (x ∷ rows) {w} e = ground (arith, found_by_id id rows {w = w}, ==_iff x.id id)

pub IdsFrom-update :
    (p : HostUpgrade → Bool) (now : ℕ) (reason : String) (uuid : ℕ → ℕ) (n : ℕ)
    (rows : List HostUpgrade)
    → IdsFrom uuid n rows
    → IdsFrom uuid n (update p (as_failed now reason) rows)
IdsFrom-update p now reason uuid n [] k = tt
IdsFrom-update p now reason uuid n (x ∷ rows) k =
    ground (arith, IdsFrom-update p now reason uuid (suc n) rows k.1, k)

pub in_flight-update :
    (h0 now : ℕ) (reason : String) (h : ℕ) (rows : List HostUpgrade)
    → in_flight h (update (is_active_for h0) (as_failed now reason) rows) ≤ in_flight h rows
in_flight-update h0 now reason h [] = omega arith
in_flight-update h0 now reason h (x ∷ rows) = ground (arith, in_flight-update h0 now reason h rows)
