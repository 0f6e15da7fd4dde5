-- ===== src/Central/Lifecycle/Decommission.antt =====
-- What is left of a host that has been decommissioned.
use mathlib.Core.Path.{subst}
use port_forge.Prelude.Result.{ok, >>=-eq-ok}
use port_forge.Prelude.{
  ℕ, ◌≤◌, Option, some, List, [], ◌∷◌, Bool, true, false, not, ◌&&◌, ◌==◌, ◌≡◌, refl, ap, sym, ◌∙◌,
  arith, any, select, update, update_first, String, length, any-append, any-congr, length-append,
  take-eq, ==_iff, ==-refl,
}
use port_forge.Central.Vocabulary.{LifecycleState}
use port_forge.Central.Tables.{
  Host, Allocation, AgentCredential, CentralReservation, HostUpgrade, Db,
}
use port_forge.Central.Probes.{host_by_id}
use port_forge.Central.Allocations.{
  delete_rows, mark_released, as_released, own_row_limit, belongs_to,
}
use port_forge.Central.Reservations.{
  delete_row, list_for_host, Scalar, nothing, single, multiple, scalar_one_or_none,
}
use port_forge.Central.Upgrades.{as_failed, fail_active_for_host, is_active_for}
use port_forge.Central.Lifecycle.{
  is_active_of, newest_first, active_allocations, release_each, release_active_allocations,
  as_decommissioned, is_live_credential, revoke_active, revoke_over, revoke, decommission_host,
  decommission_found, decommission_in, decommission_active, after_revocation, cleaned_reason,
  change_host,
}

abbrev names_id : List Allocation → Allocation → Bool
names_id rows b = any (λ a. a.id == b.id) rows

delete_rows-allocations :
    (now host_id : ℕ) (rows : List CentralReservation) (db : Db)
    → (delete_rows now host_id rows db).allocations ≡ db.allocations
unfolding delete_rows delete_row
delete_rows-allocations now host_id [] db = refl
delete_rows-allocations now host_id (r ∷ rs) db =
    delete_rows-allocations now host_id rs (delete_row now host_id r db)

-- Releasing one allocation leaves active those of the others.
any_active-update :
    (now host_id : ℕ) (a : Allocation) (todo rows : List Allocation)
    → any
        (λ b. is_active_of host_id b && not (names_id todo b))
        (update (λ b. b.id == a.id) (as_released now) rows)
      ≡ any (λ b. is_active_of host_id b && not (names_id (a ∷ todo) b)) rows
any_active-update now host_id a todo [] = refl
any_active-update now host_id a todo (b ∷ rows) =
    ground (arith, any_active-update now host_id a todo rows, ==_iff a.id b.id, ==_iff b.id a.id)

release_each-active :
    (now host_id : ℕ) (rows : List CentralReservation) (todo : List Allocation) (db : Db)
    → any (is_active_of host_id) (release_each now host_id rows todo db).allocations
      ≡ any (λ b. is_active_of host_id b && not (names_id todo b)) db.allocations
unfolding release_each mark_released
release_each-active now host_id rows [] db =
    any-congr (is_active_of host_id) (λ b. is_active_of host_id b && not (names_id [] b))
      db.allocations (λ b. ground arith)
release_each-active now host_id rows (a ∷ rest) db =
    let own = select (belongs_to a.id) rows in
    release_each-active now host_id rows rest (mark_released now a (delete_rows now host_id own db))
    ∙ ap
        (λ l.
          any (λ b. is_active_of host_id b && not (names_id rest b))
            (update (λ b. b.id == a.id) (as_released now) l))
        (delete_rows-allocations now host_id own db)
    ∙ any_active-update now host_id a rest db.allocations

any-newest_first :
    (p : Allocation → Bool) (rows : List Allocation) → any p (newest_first rows) ≡ any p rows
any-newest_first p [] = refl
any-newest_first p (a ∷ rows) =
    ground (arith, any-append p (newest_first rows) (a ∷ []), any-newest_first p rows)

length-newest_first : (rows : List Allocation) → length (newest_first rows) ≡ length rows
length-newest_first [] = refl
length-newest_first (a ∷ rows) =
    omega (arith, length-append (newest_first rows) (a ∷ []), length-newest_first rows)

-- Every row that passes a test is named among the rows that pass it.
selected_named :
    (p : Allocation → Bool) (more rows : List Allocation)
    → ((b : Allocation) → names_id (select p rows) b ≡ true → names_id more b ≡ true)
    → any (λ b. p b && not (names_id more b)) rows ≡ false
selected_named p more [] h = refl
selected_named p more (a ∷ rows) h =
    ground (arith, ==-refl a.id, h a, selected_named p more rows (λ b e. h b (ground (arith, e))))

-- With no more active allocations than the query reads, none is left active.
no_active_left :
    (now host_id : ℕ) (db : Db)
    → length (select (is_active_of host_id) db.allocations) ≤ own_row_limit
    → any (is_active_of host_id) (release_active_allocations now host_id db).allocations ≡ false
unfolding release_active_allocations
no_active_left now host_id db fits =
    let chosen = select (is_active_of host_id) db.allocations in
    let all_read =
      take-eq own_row_limit (newest_first chosen)
        (omega (arith, length-newest_first chosen, fits)) in
    release_each-active now host_id (list_for_host host_id own_row_limit db.reservations)
      (active_allocations host_id db.allocations) db
    ∙ selected_named (is_active_of host_id) (active_allocations host_id db.allocations)
        db.allocations
        (λ b e. ap (λ l. names_id l b) all_read ∙ any-newest_first (λ a. a.id == b.id) chosen ∙ e)

upgrades_closed :
    (now host_id : ℕ) (reason : String) (rows : List HostUpgrade)
    → any (is_active_for host_id) (update (is_active_for host_id) (as_failed now reason) rows)
      ≡ false
upgrades_closed now host_id reason [] = refl
upgrades_closed now host_id reason (u ∷ rows) =
    ground (arith, upgrades_closed now host_id reason rows)

some_row :
    (c : AgentCredential) (rows : List AgentCredential)
    → scalar_one_or_none (c ∷ rows) ≡ nothing
    → ⊥
some_row c [] e = cc e
some_row c (d ∷ rows) e = cc e

alone :
    (c : AgentCredential) (rows : List AgentCredential) {x : AgentCredential}
    → scalar_one_or_none (c ∷ rows) ≡ single x
    → rows ≡ []
alone c [] e = refl
alone c (d ∷ rows) e = absurd (cc e)

pub none_live :
    (host_id : ℕ) (rows : List AgentCredential)
    → scalar_one_or_none (select (is_live_credential host_id) rows) ≡ nothing
    → any (is_live_credential host_id) rows ≡ false
none_live host_id [] e = refl
none_live host_id (c ∷ rows) e =
    ground (arith, none_live host_id rows, some_row c (select (is_live_credential host_id) rows))

none_selected :
    (host_id : ℕ) (rows : List AgentCredential)
    → select (is_live_credential host_id) rows ≡ []
    → any (is_live_credential host_id) rows ≡ false
none_selected host_id [] e = refl
none_selected host_id (c ∷ rows) e = ground (arith, none_selected host_id rows)

pub one_live :
    (host_id now : ℕ) (rows : List AgentCredential) {c : AgentCredential}
    → scalar_one_or_none (select (is_live_credential host_id) rows) ≡ single c
    → any (is_live_credential host_id) (revoke_active host_id now rows) ≡ false
one_live host_id now [] e = cc e
one_live host_id now (y ∷ rows) {c} e = ground (
  arith,
  one_live host_id now rows {c = c},
  none_selected host_id rows,
  alone y (select (is_live_credential host_id) rows) {x = c},
)

-- The revocation changes credentials only, and leaves none of the host live.
record IsRevoked (host_id : ℕ) (db db' : Db) : Type 0 where
  pub dead : any (is_live_credential host_id) db'.credentials ≡ false
  pub hosts : db'.hosts ≡ db.hosts
  pub allocations : db'.allocations ≡ db.allocations

revoke_over-IsRevoked :
    (host_id now : ℕ) (db : Db) (o : Scalar AgentCredential) {db' : Db}
    → scalar_one_or_none (select (is_live_credential host_id) db.credentials) ≡ o
    → revoke_over host_id now db o ≡ ok db'
    → IsRevoked host_id db db'
unfolding revoke_over
revoke_over-IsRevoked host_id now db nothing {db'} e h =
    let same : db ≡ db' = cc h in
    subst (IsRevoked host_id db) same
      (record { dead = none_live host_id db.credentials e; hosts = refl; allocations = refl })
revoke_over-IsRevoked host_id now db (single c) {db'} e h =
    let same : record db { credentials = revoke_active host_id now db.credentials } ≡ db' = cc h in
    subst (IsRevoked host_id db) same
      (record { dead = one_live host_id now db.credentials e; hosts = refl; allocations = refl })
revoke_over-IsRevoked host_id now db multiple e h = absurd (cc h)

-- Releasing allocations leaves hosts and credentials.
delete_rows-others :
    (now host_id : ℕ) (rows : List CentralReservation) (db : Db)
    → ((delete_rows now host_id rows db).hosts ≡ db.hosts)
      × ((delete_rows now host_id rows db).credentials ≡ db.credentials)
unfolding delete_rows delete_row
delete_rows-others now host_id [] db = (refl, refl)
delete_rows-others now host_id (r ∷ rs) db =
    delete_rows-others now host_id rs (delete_row now host_id r db)

release_each-others :
    (now host_id : ℕ) (rows : List CentralReservation) (todo : List Allocation) (db : Db)
    → ((release_each now host_id rows todo db).hosts ≡ db.hosts)
      × ((release_each now host_id rows todo db).credentials ≡ db.credentials)
unfolding release_each mark_released
release_each-others now host_id rows [] db = (refl, refl)
release_each-others now host_id rows (a ∷ rest) db =
    let own = select (belongs_to a.id) rows in
    let later =
      release_each-others now host_id rows rest
        (mark_released now a (delete_rows now host_id own db)) in
    let first = delete_rows-others now host_id own db in (later.0 ∙ first.0, later.1 ∙ first.1)

host_changed :
    (f : Host → Host) (id : ℕ) (rows : List Host) {host : Host}
    → ((h : Host) → (f h).id ≡ h.id)
    → host_by_id id rows ≡ some host
    → host_by_id id (update_first (λ h. h.id == id) f rows) ≡ some (f host)
host_changed f id [] keep e = absurd (cc e)
host_changed f id (x ∷ rows) {host} keep e =
    ground (arith, keep x, host_changed f id rows {host = host} keep)

-- What decommissioning an active host leaves.
pub record IsClosed (host_id : ℕ) (host' : Host) (db' : Db) : Type 0 where
  pub marked : host_by_id host_id db'.hosts ≡ some host'
  pub decommissioned : host'.lifecycle_state ≡ LifecycleState.decommissioned
  pub allocations : any (is_active_of host_id) db'.allocations ≡ false
  pub upgrades : any (is_active_for host_id) db'.upgrades ≡ false
  pub credentials : any (is_live_credential host_id) db'.credentials ≡ false

module _ (now host_id : ℕ) (reason : Option String) (host : Host) (db : Db) where
  abbrev marked_host : Host → Host
  marked_host = as_decommissioned now (cleaned_reason reason)

  closed :
      (revoked : Db)
      → host_by_id host_id db.hosts ≡ some host
      → length (select (is_active_of host_id) db.allocations) ≤ own_row_limit
      → IsRevoked host_id (change_host host_id marked_host db) revoked
      → IsClosed host_id (marked_host host) (after_revocation now host_id host revoked)
  unfolding after_revocation fail_active_for_host release_active_allocations
  closed revoked known fits r =
      let others =
        release_each-others now host_id (list_for_host host_id own_row_limit revoked.reservations)
          (active_allocations host_id revoked.allocations) revoked in
      record {
        marked =
            ap (host_by_id host_id) (others.0 ∙ r.hosts)
            ∙ host_changed marked_host host_id db.hosts (λ h. refl) known;
        decommissioned = refl;
        allocations = no_active_left now host_id revoked (
            subst (λ l. length (select (is_active_of host_id) l) ≤ own_row_limit)
              (sym r.allocations) fits);
        upgrades =
            upgrades_closed now host_id "host_decommissioned"
              (release_active_allocations now host_id revoked).upgrades;
        credentials = ap (any (is_live_credential host_id)) others.1 ∙ r.dead;
      }

-- A host that was active and is decommissioned is marked so; it has no active allocation, no upgrade
-- in flight and no credential that is not revoked. This is for a host with no more than the 1,000
-- active allocations that the query reads.
pub decommission_host-IsClosed :
    (now host_id : ℕ) (reason : Option String) (host : Host) (db : Db) {host' : Host} {db' : Db}
    → host_by_id host_id db.hosts ≡ some host
    → host.lifecycle_state ≡ LifecycleState.active
    → length (select (is_active_of host_id) db.allocations) ≤ own_row_limit
    → decommission_host now host_id reason db ≡ ok (host', db')
    → IsClosed host_id host' db'
unfolding decommission_host decommission_found decommission_in decommission_active revoke
decommission_host-IsClosed now host_id reason host db {host'} {db'} known active fits h =
    let changed = change_host host_id (as_decommissioned now (cleaned_reason reason)) db in
    let live = scalar_one_or_none (select (is_live_credential host_id) changed.credentials) in
    let begun : decommission_active now host_id reason host db ≡ ok (host', db') =
      sym (rw (known, decommission_found, active) refl) ∙ h in
    let (revoked, e, rest) =
      >>=-eq-ok (revoke_over host_id now changed live)
        (λ revoked. ok (
          as_decommissioned now (cleaned_reason reason) host,
          after_revocation now host_id host revoked,
        ))
        begun in
    let r = revoke_over-IsRevoked host_id now changed live refl e in
    let done = closed now host_id reason host db revoked known fits r in
    let same_host : as_decommissioned now (cleaned_reason reason) host ≡ host' = cc rest in
    let same_db : after_revocation now host_id host revoked ≡ db' = cc rest in
    subst (λ d. IsClosed host_id host' d) same_db
      (subst (λ t. IsClosed host_id t (after_revocation now host_id host revoked)) same_host done)
