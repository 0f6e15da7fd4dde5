-- ===== src/Central/Reservations/Unique.antt =====
-- No two reservations hold one binding: the invariant behind `get_by_binding`, kept by the
-- operations of reservation_service.py although the database's own constraint is weaker.
use port_forge.Prelude.{
  ℕ, ◌≤◌, none, some, List, [], ◌∷◌, ◌++◌, Bool, true, false, ◌==◌, ◌≡◌, ◌↔◌, refl, inl, not, find?,
  inr, any, select, length, length-append, ap, opt_str_eq_iff, length-select-select-le,
  length-select-update, select-append, ◌+◌, arith, Option-cases, Bool-cases, if◌then◌else◌,
}
use port_forge.Prelude.Result.{ok}
use port_forge.Central.Vocabulary.{protocol_eq_iff}
use port_forge.Central.Tables.{CentralReservation, Db, Env}
use port_forge.Central.Reservations.{
  create_over, delete_found, nothing, single, multiple, Binding, binding_of, binding_eq, collides,
  Scalar, scalar_one_or_none, get_by_binding, insert_reservation, ReservationIn, with_row,
  create_reservation, delete_reservation, refreshed, new_row,
}

-- How many rows hold a binding.
abbrev pub holders : Binding → List CentralReservation → ℕ
holders b rows = length (select (λ r. binding_eq (binding_of r) b) rows)

abbrev pub HasUniqueBindings : List CentralReservation → Type 0
HasUniqueBindings rows = (b : Binding) → holders b rows ≤ 1

pub binding_eq_iff : (a b : Binding) → (binding_eq a b ≡ true) ↔ (a ≡ b)
binding_eq_iff a b =
    ground
      (arith, protocol_eq_iff a.protocol b.protocol, opt_str_eq_iff a.bind_address b.bind_address)

-- A row without an address is never refused by the database, whatever rows it repeats.
any-collides-null :
    (r : CentralReservation) (rows : List CentralReservation)
    → r.bind_address ≡ none
    → any (λ old. collides old r) rows ≡ false
any-collides-null r [] h = refl
any-collides-null r (x ∷ rows) h = ground (arith, any-collides-null r rows h)

-- The database's constraint never refuses a row without a bind address, whatever rows the table
-- holds: such a row is always added, a repeated one too.
pub insert_reservation-null_address :
    (now : ℕ) (r : CentralReservation) (db : Db)
    → r.bind_address ≡ none
    → insert_reservation now r db ≡ some (with_row now r db)
unfolding insert_reservation
insert_reservation-null_address now r db h = ground (arith, any-collides-null r db.reservations h)

pub holders-append :
    (b : Binding) (rows : List CentralReservation) (r : CentralReservation)
    → holders b (rows ++ r ∷ []) ≡ holders b rows + (if binding_eq (binding_of r) b then 1 else 0)
holders-append b rows r = ground (
  arith,
  select-append (λ x. binding_eq (binding_of x) b) rows (r ∷ []),
  length-append (select (λ x. binding_eq (binding_of x) b) rows)
      (select (λ x. binding_eq (binding_of x) b) (r ∷ [])),
)

-- A row whose binding nobody holds may be added.
pub append-HasUniqueBindings :
    (rows : List CentralReservation) (r : CentralReservation)
    → HasUniqueBindings rows
    → holders (binding_of r) rows ≡ 0
    → HasUniqueBindings (rows ++ r ∷ [])
append-HasUniqueBindings rows r u free b = elim (Bool-cases (binding_eq (binding_of r) b)) [
  | inl same ↦ ground (
    arith,
    holders-append b rows r,
    ap (λ c. holders c rows) ((binding_eq_iff (binding_of r) b).0 same),
  )
  | inr other ↦ ground (arith, holders-append b rows r, u b)
]

-- Deleting rows keeps the bindings unique.
pub select-HasUniqueBindings :
    (p : CentralReservation → Bool) (rows : List CentralReservation)
    → HasUniqueBindings rows
    → HasUniqueBindings (select p rows)
select-HasUniqueBindings p rows u b =
    omega (arith, u b, length-select-select-le (λ x. binding_eq (binding_of x) b) p rows)

scalar_nothing {ℓ} : {A : Type ℓ} (xs : List A) → scalar_one_or_none xs ≡ nothing → length xs ≡ 0
scalar_nothing [] h = refl
scalar_nothing (x ∷ []) h = cc
scalar_nothing (x ∷ y ∷ rest) h = cc

pub get_by_binding-nothing :
    (b : Binding) (rows : List CentralReservation)
    → get_by_binding b rows ≡ nothing
    → holders b rows ≡ 0
unfolding get_by_binding
get_by_binding-nothing b rows h = scalar_nothing (select (λ r. binding_eq (binding_of r) b) rows) h

create_over-HasUniqueBindings :
    (env : Env) (r : ReservationIn) (db : Db) (s : Scalar CentralReservation)
    → HasUniqueBindings db.reservations
    → (s ≡ nothing → holders r.binding db.reservations ≡ 0)
    → {row : CentralReservation} {db' : Db} → create_over env r db s ≡ ok (row, db')
    → HasUniqueBindings db'.reservations
unfolding create_over insert_reservation
create_over-HasUniqueBindings env r db nothing u e h b = ground (
  arith,
  append-HasUniqueBindings db.reservations (new_row (env.uuid (length db.reservations)) r) u
      (e refl) b,
)
create_over-HasUniqueBindings env r db (single old) u e h b = ground (
  arith,
  u b,
  length-select-update (λ x. binding_eq (binding_of x) b) (λ x. x.id == old.id) (refreshed r)
      db.reservations (λ x. refl),
)
create_over-HasUniqueBindings env r db multiple u e h b = cc

-- A call that creates or refreshes a reservation keeps every binding, that is host, port, protocol
-- and bind address, reserved at most once.
pub create_reservation-HasUniqueBindings :
    (env : Env) (r : ReservationIn) (db : Db) {row : CentralReservation} {db' : Db}
    → HasUniqueBindings db.reservations
    → create_reservation env r db ≡ ok (row, db')
    → HasUniqueBindings db'.reservations
unfolding create_reservation
create_reservation-HasUniqueBindings env r db u h =
    create_over-HasUniqueBindings env r db (get_by_binding r.binding db.reservations) u
      (get_by_binding-nothing r.binding db.reservations) h

-- Deleting a reservation keeps every binding reserved at most once.
pub delete_reservation-HasUniqueBindings :
    (env : Env) (host_id reservation_id : ℕ) (db : Db)
    → HasUniqueBindings db.reservations
    → HasUniqueBindings (delete_reservation env host_id reservation_id db).1.reservations
unfolding delete_reservation
delete_reservation-HasUniqueBindings env host_id reservation_id db u b =
    elim (Option-cases (find? (λ r. r.id == reservation_id) db.reservations)) [
      | inl e ↦ rw (e, delete_found) (u b)
      | inr (r, e) ↦
          rw (e, delete_found)
            (ground
              (arith, u b, select-HasUniqueBindings (λ x. not (x.id == r.id)) db.reservations u b))
    ]
