-- ===== src/Central/Allocations/Release.antt =====
-- `release_allocation`: which reservations go, which stay, and that releasing again is harmless.
use mathlib.Core.Path.{subst}
use port_forge.Prelude.{
  ℕ, ◌≤◌, some, List, [], ◌∷◌, Bool, true, false, not, ◌&&◌, ◌==◌, ◌≡◌, refl, ap, sym, ◌∙◌, arith,
  any, select, update, length, All, find?, any-select, ==-refl, any-congr,
}
use port_forge.Prelude.Result.{ok, >>=-eq-ok}
use port_forge.Central.Vocabulary.{AllocationStatus}
use port_forge.Central.Tables.{CentralReservation, Allocation, Db, Env, Host}
use port_forge.Central.Reservations.{delete_row, list_for_host}
use port_forge.Central.Search.Candidates.{any-list_for_host}
use port_forge.Central.Allocations.{
  AllocationOut, belongs_to, own_rows, own_row_limit, delete_rows, mark_released, release_active,
  release_in, release_found, release_allocation, allocation_by_id, host_of, as_released,
}

-- The ids of some rows.
abbrev pub has_id : List CentralReservation → CentralReservation → Bool
has_id rows x = any (λ r. r.id == x.id) rows

select-select {ℓ} :
    {A : Type ℓ} (p q : A → Bool) (xs : List A)
    → select p (select q xs) ≡ select (λ x. q x && p x) xs
select-select p q [] = refl
select-select p q (x ∷ xs) = ground (arith, select-select p q xs)

select-congr {ℓ} :
    {A : Type ℓ} (p q : A → Bool) (xs : List A) → ((x : A) → p x ≡ q x) → select p xs ≡ select q xs
select-congr p q [] h = refl
select-congr p q (x ∷ xs) h = ground (arith, h x, select-congr p q xs h)

select-true {ℓ} : {A : Type ℓ} (xs : List A) → select (λ _. true) xs ≡ xs
select-true [] = refl
select-true (x ∷ xs) = ap (◌∷◌ x) (select-true xs)

-- The loop deletes the rows by their ids, and no others.
delete_rows-eq :
    (now host_id : ℕ) (rows : List CentralReservation) (db : Db)
    → (delete_rows now host_id rows db).reservations
      ≡ select (λ x. not (has_id rows x)) db.reservations
unfolding delete_rows delete_row
delete_rows-eq now host_id [] db = sym (select-true db.reservations)
delete_rows-eq now host_id (r ∷ rs) db =
    delete_rows-eq now host_id rs (delete_row now host_id r db)
    ∙ select-select (λ x. not (has_id rs x)) (λ x. not (x.id == r.id)) db.reservations
    ∙ select-congr (λ x. not (x.id == r.id) && not (has_id rs x)) (λ x. not (has_id (r ∷ rs) x))
        db.reservations (λ x. ground arith)

-- If what a test passes is not selected, the selection has nothing that passes it.
any-select_none {ℓ} :
    {A : Type ℓ} (p q : A → Bool) (xs : List A)
    → All (λ x. p x ≡ true → q x ≡ false) xs
    → any p (select q xs) ≡ false
any-select_none p q [] h = refl
any-select_none p q (x ∷ xs) h = ground (arith, h.0, any-select_none p q xs h.1)

All-imp {ℓ κ} :
    {A : Type ℓ} (P Q : A → Type κ) (xs : List A) → ((x : A) → P x → Q x) → All P xs → All Q xs
All-imp P Q [] f h = tt
All-imp P Q (x ∷ xs) f h = (f x h.0, All-imp P Q xs f h.1)

-- A row that passes a test is found among the rows that pass it, by its id.
found_by_id :
    (p : CentralReservation → Bool) (rows : List CentralReservation)
    → All (λ x. p x ≡ true → any (λ r. p r && r.id == x.id) rows ≡ true) rows
found_by_id p [] = tt
found_by_id p (x ∷ rows) = (
  λ h. ground (arith, ==-refl x.id),
  All-imp (λ y. p y ≡ true → any (λ r. p r && r.id == y.id) rows ≡ true)
      (λ y. p y ≡ true → any (λ r. p r && r.id == y.id) (x ∷ rows) ≡ true) rows
      (λ y h e. ground (arith, h e)) (found_by_id p rows),
)

module _ (a : Allocation) (db : Db) where
  abbrev is_own : CentralReservation → Bool
  is_own r = r.host_id == a.host_id && belongs_to a.id r

  has_id-own_rows :
      (x : CentralReservation)
      → length (select (λ r. r.host_id == a.host_id) db.reservations) ≤ own_row_limit
      → has_id (own_rows a db) x ≡ any (λ r. is_own r && r.id == x.id) db.reservations
  unfolding own_rows
  has_id-own_rows x fits =
      any-select (λ r. r.id == x.id) (belongs_to a.id)
        (list_for_host a.host_id own_row_limit db.reservations)
      ∙ any-list_for_host (λ r. belongs_to a.id r && r.id == x.id) a.host_id own_row_limit
          db.reservations fits
      ∙ any-congr (λ r. r.host_id == a.host_id && (belongs_to a.id r && r.id == x.id))
          (λ r. is_own r && r.id == x.id) db.reservations (λ r. ground arith)

  -- Within the limit of the query, no reservation of the allocation is left.
  no_own_row_left :
      length (select (λ r. r.host_id == a.host_id) db.reservations) ≤ own_row_limit
      → any is_own (select (λ x. not (has_id (own_rows a db) x)) db.reservations) ≡ false
  no_own_row_left fits =
      any-select_none is_own (λ x. not (has_id (own_rows a db) x)) db.reservations
        (All-imp (λ x. is_own x ≡ true → any (λ r. is_own r && r.id == x.id) db.reservations ≡ true)
          (λ x. is_own x ≡ true → not (has_id (own_rows a db) x) ≡ false) db.reservations
          (λ x h e. ground (arith, h e, has_id-own_rows x fits))
          (found_by_id is_own db.reservations))

find?-allocation_id :
    (id : ℕ) (rows : List Allocation) {a : Allocation}
    → find? (λ b. b.id == id) rows ≡ some a
    → a.id ≡ id
find?-allocation_id id [] h = cc
find?-allocation_id id (b ∷ rows) {a} h = ground (arith, find?-allocation_id id rows {a = a})

find?-as_released :
    (id now : ℕ) (rows : List Allocation) {a : Allocation}
    → find? (λ b. b.id == id) rows ≡ some a
    → find? (λ b. b.id == id) (update (λ b. b.id == id) (as_released now) rows)
      ≡ some (as_released now a)
find?-as_released id now [] h = cc
find?-as_released id now (b ∷ rows) {a} h = ground (arith, find?-as_released id now rows {a = a})

-- What a release that succeeds has done, by the state the allocation was in.
abbrev After : Env → Allocation → Db → Db → AllocationStatus → Type 0
After env a db db' AllocationStatus.released = db' ≡ db
After env a db db' AllocationStatus.active =
    db' ≡ mark_released env.now a (delete_rows env.now a.host_id (own_rows a db) db)

-- The allocation and the host that a release has found.
record IsReleased (env : Env) (id : ℕ) (db db' : Db) : Type 0 where
  a : Allocation
  found : find? (λ b. b.id == id) db.allocations ≡ some a
  host : Host
  known : host_of a.host_id db ≡ ok host
  after : After env a db db' a.status

release_in-After :
    (env : Env) (db : Db) (a : Allocation) (host : Host) (s : AllocationStatus)
    {out : AllocationOut} {db' : Db}
    → release_in env db a host s ≡ ok (out, db')
    → After env a db db' s
unfolding release_in release_active
release_in-After env db a host AllocationStatus.released h = cc
release_in-After env db a host AllocationStatus.active h = cc

allocation_by_id-ok :
    (id : ℕ) (db : Db) (a : Allocation)
    → allocation_by_id id db ≡ ok a
    → find? (λ b. b.id == id) db.allocations ≡ some a
allocation_by_id-ok id db a h = ground arith

release_allocation-IsReleased :
    (env : Env) (id : ℕ) (db : Db) {out : AllocationOut} {db' : Db}
    → release_allocation env id db ≡ ok (out, db')
    → IsReleased env id db db'
unfolding release_allocation release_found
release_allocation-IsReleased env id db h =
    let (a, found, rest) = >>=-eq-ok (allocation_by_id id db) (release_found env db) h in
    let (host, known, done) =
      >>=-eq-ok (host_of a.host_id db) (λ host. release_in env db a host a.status) rest in
    record {
      a = a;
      found = allocation_by_id-ok id db a found;
      host = host;
      known = known;
      after = release_in-After env db a host a.status done;
    }

delete_rows-allocations :
    (now host_id : ℕ) (rows : List CentralReservation) (db : Db)
    → (delete_rows now host_id rows db).allocations ≡ db.allocations
unfolding delete_rows delete_row
delete_rows-allocations now host_id [] db = refl
delete_rows-allocations now host_id (r ∷ rs) db =
    delete_rows-allocations now host_id rs (delete_row now host_id r db)

-- The rows that a release of the active allocation `a` leaves.
record IsDone (env : Env) (id : ℕ) (db : Db) (a : Allocation) (db' : Db) : Type 0 where
  pub marked : find? (λ b. b.id == id) db'.allocations ≡ some (as_released env.now a)
  pub kept : db'.reservations ≡ select (λ x. not (has_id (own_rows a db) x)) db.reservations

active-IsDone :
    (env : Env) (id : ℕ) (db : Db) (a : Allocation) {out : AllocationOut} {db' : Db}
    → find? (λ b. b.id == id) db.allocations ≡ some a
    → a.status ≡ AllocationStatus.active
    → release_allocation env id db ≡ ok (out, db')
    → IsDone env id db a db'
unfolding mark_released
active-IsDone env id db a {out} {db'} found active h =
    let r = release_allocation-IsReleased env id db {out = out} {db' = db'} h in
    let same : r.a ≡ a = cc (sym r.found ∙ found) in
    let after : After env a db db' AllocationStatus.active =
      subst (After env a db db') active (subst (λ b. After env b db db' b.status) same r.after) in
    rw after (record {
      marked = rw (delete_rows-allocations env.now a.host_id (own_rows a db) db) (
          ap
            (λ i.
              find? (λ b. b.id == id)
                (update (λ b. b.id == i) (as_released env.now) db.allocations))
            (find?-allocation_id id db.allocations {a = a} found)
          ∙ find?-as_released id env.now db.allocations {a = a} found);
      kept = delete_rows-eq env.now a.host_id (own_rows a db) db;
    })

-- Releasing an active allocation, on a host with no more than 1,000 reservations, marks it released,
-- deletes every reservation of the allocation on its host, and keeps every reservation whose id none
-- of those has.
pub release_allocation_active :
    (env : Env) (id : ℕ) (db : Db) (a : Allocation) {out : AllocationOut} {db' : Db}
    → find? (λ b. b.id == id) db.allocations ≡ some a
    → a.status ≡ AllocationStatus.active
    → length (select (λ r. r.host_id == a.host_id) db.reservations) ≤ 1000
    → release_allocation env id db ≡ ok (out, db')
    → (find? (λ b. b.id == id) db'.allocations ≡ some (as_released env.now a))
      × (any (is_own a db) db'.reservations ≡ false)
      × (db'.reservations
          ≡ select
              (λ x. not (any (λ r. is_own a db r && r.id == x.id) db.reservations))
              db.reservations)
release_allocation_active env id db a {out} {db'} found active fits h =
    let d = active-IsDone env id db a {out = out} {db' = db'} found active h in
    (
      d.marked,
      rw d.kept (no_own_row_left a db fits),
      d.kept
          ∙ select-congr (λ x. not (has_id (own_rows a db) x))
              (λ x. not (any (λ r. is_own a db r && r.id == x.id) db.reservations)) db.reservations
              (λ x. ap not (has_id-own_rows a db x fits)),
    )
