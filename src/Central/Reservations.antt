-- ===== src/Central/Reservations.antt =====
-- Reservations of the central registry: backend/app/repositories/reservation_repository.py and
-- backend/app/services/reservation_service.py. `add` and `commit` act on the rows of `Db`; a
-- refused operation leaves the transaction as it began.
pub mod Unique
use port_forge.Prelude.{
  ℕ, String, Option, none, some, List, [], ◌∷◌, ◌++◌, Bool, true, false, not, ◌&&◌, ◌==◌, any,
  find?, select, update, take, order_by, length, is_truthy, opt_str_eq, str_eq, if◌then◌else◌,
}
use port_forge.Prelude.Result.{Result, ok, err}
use port_forge.Central.Vocabulary.{Protocol, protocol_eq, reservation_created, reservation_released}
use port_forge.Central.Tables.{CentralReservation, ActivityEvent, Db, Env}

-- The four columns of `uq_central_reservation_binding`.
pub record Binding : Type 0 where
  pub host_id : ℕ
  pub port : ℕ
  pub protocol : Protocol
  pub bind_address : Option String

abbrev pub binding_of : CentralReservation → Binding
binding_of r = record {
  host_id = r.host_id;
  port = r.port;
  protocol = r.protocol;
  bind_address = r.bind_address;
}

-- `bind_address == None` in a WHERE clause is IS NULL, so it finds the rows without an address.
abbrev pub binding_eq : Binding → Binding → Bool
binding_eq a b =
    a.host_id == b.host_id
    && a.port == b.port
    && protocol_eq a.protocol b.protocol
    && opt_str_eq a.bind_address b.bind_address

-- What `scalar_one_or_none` makes of the rows; two or more raise MultipleResultsFound.
pub data Scalar {ℓ} (A : Type ℓ) : Type ℓ where
  nothing : Scalar A
  single : A → Scalar A
  multiple : Scalar A

abbrev pub scalar_one_or_none {ℓ} : {A : Type ℓ} → List A → Scalar A
scalar_one_or_none [] = nothing
scalar_one_or_none (x ∷ []) = single x
scalar_one_or_none (x ∷ y ∷ rest) = multiple

unfoldable pub get_by_binding : Binding → List CentralReservation → Scalar CentralReservation
get_by_binding b rows = scalar_one_or_none (select (λ r. binding_eq (binding_of r) b) rows)

-- `list(host_id=…, limit=…)`: a host's rows by port, no more than the limit.
unfoldable pub list_for_host : ℕ → ℕ → List CentralReservation → List CentralReservation
list_for_host host_id limit rows =
    take limit (order_by (λ r. r.port) (select (λ r. r.host_id == host_id) rows))

-- The unique constraint: SQL holds no two NULL addresses to be equal, so it speaks only of rows
-- that have an address.
abbrev pub addresses_collide : Option String → Option String → Bool
addresses_collide (some a) (some b) = str_eq a b
addresses_collide none _ = false
addresses_collide (some a) none = false

abbrev pub collides : CentralReservation → CentralReservation → Bool
collides a b =
    a.host_id == b.host_id
    && a.port == b.port
    && protocol_eq a.protocol b.protocol
    && addresses_collide a.bind_address b.bind_address

abbrev pub created_event : ℕ → CentralReservation → ActivityEvent
created_event now r = record {
  host_id = r.host_id;
  timestamp = now;
  event_type = reservation_created;
  port = some r.port;
  protocol = some r.protocol;
  bind_address = r.bind_address;
  source = none;
  identity_context = r.project;
  reservation_id = some r.id;
}

-- The row and its activity event, added.
abbrev pub with_row : ℕ → CentralReservation → Db → Db
with_row now r db = record db {
  reservations = db.reservations ++ r ∷ [];
  activity = db.activity ++ created_event now r ∷ [];
}

-- `_insert_reservation`: `none` is an IntegrityError from the flush.
unfoldable pub insert_reservation : ℕ → CentralReservation → Db → Option Db
insert_reservation now r db =
    if any (λ old. collides old r) db.reservations then none else some (with_row now r db)

pub data ReservationError : Type 0 where
  conflict multiple_results integrity_error : ReservationError

-- What the caller of `create_reservation` gives.
pub record ReservationIn : Type 0 where
  pub binding : Binding
  pub project : String
  pub service : Option String
  pub purpose : Option String
  pub notes : Option String
  pub local_reservation_id : Option String

abbrev pub new_row : ℕ → ReservationIn → CentralReservation
new_row id r = record {
  id = id;
  host_id = r.binding.host_id;
  port = r.binding.port;
  protocol = r.binding.protocol;
  bind_address = r.binding.bind_address;
  project = r.project;
  service = r.service;
  purpose = r.purpose;
  notes = r.notes;
  local_reservation_id = r.local_reservation_id;
  allocation_id = none;
  request_name = none;
}

abbrev pub refreshed : ReservationIn → CentralReservation → CentralReservation
refreshed r row = record row {
  project = r.project;
  service = r.service;
  purpose = r.purpose;
  notes = r.notes;
}

abbrev created : Option Db → CentralReservation → Result ReservationError (CentralReservation × Db)
created none row = err integrity_error
created (some db) row = ok (row, db)

-- A new row needs its host's, by the foreign key; an allocation has found the host before.
create_over :
    Env
    → ReservationIn
    → Db
    → Scalar CentralReservation
    → Result ReservationError (CentralReservation × Db)
create_over env r db nothing =
    let row = new_row (env.uuid (length db.reservations)) r in
    let inserted = insert_reservation env.now row db in
    created (if any (λ h. h.id == row.host_id) db.hosts then inserted else none) row
create_over env r db (single old) =
    if is_truthy r.local_reservation_id
      && opt_str_eq old.local_reservation_id r.local_reservation_id
    then ok (
      refreshed r old,
      record db { reservations = update (λ x. x.id == old.id) (refreshed r) db.reservations },
    )
    else err conflict
create_over env r db multiple = err multiple_results

unfoldable pub create_reservation :
    Env → ReservationIn → Db → Result ReservationError (CentralReservation × Db)
unfolding create_over insert_reservation get_by_binding
create_reservation env r db = create_over env r db (get_by_binding r.binding db.reservations)

abbrev pub released_event : ℕ → ℕ → CentralReservation → ActivityEvent
released_event now host_id r = record {
  host_id = host_id;
  timestamp = now;
  event_type = reservation_released;
  port = some r.port;
  protocol = some r.protocol;
  bind_address = r.bind_address;
  source = none;
  identity_context = r.project;
  reservation_id = some r.id;
}

-- `reservation_repo.delete(row)` and its activity event.
unfoldable pub delete_row : ℕ → ℕ → CentralReservation → Db → Db
delete_row now host_id r db = record db {
  reservations = select (λ x. not (x.id == r.id)) db.reservations;
  activity = db.activity ++ released_event now host_id r ∷ [];
}

abbrev delete_found : Env → ℕ → Option CentralReservation → Db → Bool × Db
delete_found env host_id none db = (false, db)
delete_found env host_id (some r) db =
    if r.host_id == host_id then (true, delete_row env.now host_id r db) else (false, db)

unfoldable pub delete_reservation : Env → ℕ → ℕ → Db → Bool × Db
unfolding delete_row
delete_reservation env host_id reservation_id db =
    delete_found env host_id (find? (λ r. r.id == reservation_id) db.reservations) db
