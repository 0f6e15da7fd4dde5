-- ===== src/Agent/Reserve.antt =====
-- Reserving and releasing ports: agent/portforge_agent/reserve_ops.py. The reservation file is the
-- list of its rows in order; each operation holds the file's lock, so it is one step. The texts of
-- the messages are left out.
pub mod Ownership
pub mod Slots
pub mod History
use port_forge.Prelude.{
  ℕ, suc, String, Option, none, some, List, [], ◌∷◌, ◌++◌, Bool, true, false, not, ◌&&◌, ◌==◌,
  find?, select, update_first, or_else, str_eq, normalize, codes_eq, if◌then◌else◌,
}
use port_forge.Central.Vocabulary.{Protocol, protocol_eq}
use port_forge.Agent.Records.{Listener, Reservation, Claim, create}
use port_forge.Agent.Evaluate.{is_for, find_discovered}

-- One run of a command: the host it runs on, what discovery saw, the clock, and the id that
-- `uuid4` draws.
pub record Run : Type 0 where
  pub host_id : String
  pub discovered : List Listener
  pub now : ℕ
  pub new_id : ℕ

pub data ReserveOutcome : Type 0 where
  created updated_same_project adopted_active_same_project : ReserveOutcome
  refused_other_project_reservation refused_active_other_owner : ReserveOutcome

pub data ReleaseOutcome : Type 0 where
  released already_absent refused_other_project : ReleaseOutcome

-- `ReserveResult.success`
abbrev pub reserve_success : ReserveOutcome → Bool
reserve_success created = true
reserve_success updated_same_project = true
reserve_success adopted_active_same_project = true
reserve_success refused_other_project_reservation = false
reserve_success refused_active_other_owner = false

-- `_same_project`; a project name of the caller is a text.
unfoldable pub same_project : Option String → String → Bool
same_project none b = false
same_project (some a) b =
    if str_eq a ""
    then false
    else if str_eq b ""
    then false
    else codes_eq (normalize a) (normalize b)

-- `_find_exact`
abbrev pub find_exact : List Reservation → String → ℕ → Protocol → Option Reservation
find_exact rows host_id port protocol = find? (is_for host_id port protocol) rows

abbrev pub refresh : Claim → ℕ → Reservation → Reservation
refresh c now r = record r {
  service = or_else c.service r.service;
  purpose = or_else c.purpose r.purpose;
  notes = or_else c.notes r.notes;
  bind_address = or_else c.bind_address r.bind_address;
  updated_at = now;
}

pub record ReserveResult : Type 0 where
  pub outcome : ReserveOutcome
  pub reservation : Option Reservation
  pub rows : List Reservation

abbrev pub reserve_result : ReserveOutcome → Option Reservation → List Reservation → ReserveResult
reserve_result o r rows = record { outcome = o; reservation = r; rows = rows }

-- A new reservation, appended to the file.
abbrev pub append_new : Run → Claim → List Reservation → ReserveOutcome → ReserveResult
append_new run c rows outcome =
    let new = create run.host_id c run.new_id run.now in
    reserve_result outcome (some new) (rows ++ new ∷ [])

-- The port is not reserved.
reserve_unclaimed : Run → Claim → List Reservation → Option Listener → ReserveResult
unfolding same_project
reserve_unclaimed run c rows none = append_new run c rows created
reserve_unclaimed run c rows (some active) =
    if same_project active.project_name c.project
    then append_new run c rows adopted_active_same_project
    else reserve_result refused_active_other_owner none rows

reserve_over : Run → Claim → List Reservation → Option Reservation → ReserveResult
unfolding reserve_unclaimed
reserve_over run c rows none =
    reserve_unclaimed run c rows (find_discovered run.discovered c.port c.protocol)
reserve_over run c rows (some existing) =
    if same_project (some existing.project) c.project
    then reserve_result updated_same_project (some (refresh c run.now existing))
        (update_first (is_for run.host_id c.port c.protocol) (refresh c run.now) rows)
    else reserve_result refused_other_project_reservation (some existing) rows

unfoldable pub reserve : Run → Claim → List Reservation → ReserveResult
unfolding reserve_over
reserve run c rows = reserve_over run c rows (find_exact rows run.host_id c.port c.protocol)

pub record ReleaseResult : Type 0 where
  pub outcome : ReleaseOutcome
  pub reservation : Option Reservation
  pub rows : List Reservation

abbrev pub release_result : ReleaseOutcome → Option Reservation → List Reservation → ReleaseResult
release_result o r rows = record { outcome = o; reservation = r; rows = rows }

abbrev pub without : ℕ → List Reservation → List Reservation
without id rows = select (λ r. not (r.reservation_id == id)) rows

release_over : String → List Reservation → Option Reservation → ReleaseResult
unfolding same_project
release_over project rows none = release_result already_absent none rows
release_over project rows (some existing) =
    if same_project (some existing.project) project
    then release_result released (some existing) (without existing.reservation_id rows)
    else release_result refused_other_project (some existing) rows

unfoldable pub release : String → ℕ → String → Protocol → List Reservation → ReleaseResult
unfolding release_over
release host_id port project protocol rows =
    release_over project rows (find_exact rows host_id port protocol)

release_id_over : ℕ → Option String → List Reservation → Option Reservation → ReleaseResult
unfolding same_project
release_id_over id project rows none = release_result already_absent none rows
release_id_over id none rows (some existing) =
    release_result released (some existing) (without id rows)
release_id_over id (some project) rows (some existing) =
    if same_project (some existing.project) project
    then release_result released (some existing) (without id rows)
    else release_result refused_other_project (some existing) rows

unfoldable pub release_by_id : ℕ → Option String → List Reservation → ReleaseResult
unfolding release_id_over
release_by_id id project rows =
    release_id_over id project rows (find? (λ r. r.reservation_id == id) rows)

-- One entry after another, each on the file that the one before left. Only entries that are
-- well-formed are claims; the project is not empty.
unfoldable pub sync_project_reservations :
    (ℕ → Run) → ℕ → List Claim → List Reservation → List ReserveResult × List Reservation
unfolding reserve
sync_project_reservations runs n [] rows = ([], rows)
sync_project_reservations runs n (c ∷ claims) rows =
    let result = reserve (runs n) c rows in
    let (rest, final) = sync_project_reservations runs (suc n) claims result.rows in
    (result ∷ rest, final)
