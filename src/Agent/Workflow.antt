-- ===== src/Agent/Workflow.antt =====
-- The allocation of a project's ports with the change of its configuration files:
-- agent/portforge_agent/workflow.py. The server behind the client is a parameter, and so is what the
-- plan makes of the manifest: the theorems hold for every plan. Times in the record are left out.
pub mod Compensation
use port_forge.Prelude.{
  ℕ, String, Option, none, some, List, [], ◌∷◌, ◌++◌, Bool, true, false, not, ◌&&◌, ◌||◌, any,
  is_some, str_eq, if◌then◌else◌,
}
use port_forge.Prelude.Result.{Result, ok, err}
use port_forge.Agent.Mutations.{
  MutationStatus, ConfigError, Failure, raised, os_error, PlannedFile, MutationRecord, Files, Store,
  World, MutationOutcome, apply_mutation, rollback_mutation,
}

-- What the manifest and its fingerprint say of the request.
pub record Manifest : Type 0 where
  pub manifest_hash : String
  pub has_config : Bool

-- What `create_allocation` answers when it succeeds.
pub record Grant : Type 0 where
  pub allocation_id : ℕ
  pub idempotent_replay : Bool
  pub is_active : Bool
  pub ports : List (String × ℕ)

pub data Reply : Type 0 where
  refused : Reply
  granted : Grant → Reply

-- `CentralClient`, over the state of what is behind it
pub record Client (Remote : Type 0) : Type 0 where
  pub create_allocation : Remote → Reply × Remote
  pub release_allocation : ℕ → Remote → Bool × Remote

pub data WorkflowStatus : Type 0 where
  failed allocated applied : WorkflowStatus

pub data CompensationAction : Type 0 where
  config_rolled_back config_not_applied config_rollback_check_failed : CompensationAction
  allocation_released allocation_release_failed allocation_preserved : CompensationAction

pub record WorkflowRecord : Type 0 where
  pub manifest_hash : String
  pub status : WorkflowStatus
  pub allocation_id : Option ℕ
  pub created_by_this_attempt : Bool
  pub mutation_id : Option String
  pub config_applied : Bool
  pub ports : List (String × ℕ)
  pub compensation : List CompensationAction

-- How a workflow fails; last, by an `OSError` that nothing in it catches.
pub data WorkflowError : Type 0 where
  idempotency_conflict allocation_unavailable state_inconsistent : WorkflowError
  compensation_failed config_failed : ConfigError → WorkflowError
  escaped_os_error : WorkflowError

module _ (Remote : Type 0) where
  -- The server, the project's directory, the record of the workflow, and the statuses with which the
  -- system lets it be saved.
  pub record Site : Type 0 where
    pub remote : Remote
    pub store : Store
    pub saved : Option WorkflowRecord
    pub is_saveable : WorkflowStatus → Bool

-- The plan of the files for an allocation: `build_plan`
abbrev pub Planner : Type 0
Planner = Files → Grant → Result Failure (List PlannedFile)

-- `persist_plan`, under a new id: a record of its own, and no backups
unfoldable pub persist_plan : String → List PlannedFile → Store → Store
persist_plan mutation_id files store = record store {
  backups = λ n. none;
  saved =
      some (record { mutation_id = mutation_id; status = MutationStatus.planned; files = files });
}

-- The first step of `_compensate`: an error of the module counts as a failed check, and an `OSError`
-- leaves no action.
roll_back_applied : World → Store → MutationStatus → Option CompensationAction × Store
roll_back_applied w store MutationStatus.applied = elim (rollback_mutation w store).0 [
  | ok r ↦ (some config_rolled_back, (rollback_mutation w store).1)
  | err (raised e) ↦ (some config_rollback_check_failed, (rollback_mutation w store).1)
  | err os_error ↦ (none, (rollback_mutation w store).1)
]
roll_back_applied w store MutationStatus.planned = (some config_not_applied, store)
roll_back_applied w store MutationStatus.rolled_back = (some config_not_applied, store)

abbrev pub singly : Option CompensationAction → Option (List CompensationAction)
singly none = none
singly (some a) = some (a ∷ [])

unfoldable pub compensate_config :
    World → Store → Option String → Option MutationRecord → Option (List CompensationAction) × Store
unfolding roll_back_applied
compensate_config w store none saved = (some [], store)
compensate_config w store (some id) none = (some (config_rollback_check_failed ∷ []), store)
compensate_config w store (some id) (some r) =
    let done = roll_back_applied w store r.status in (singly done.0, done.1)

module _ {Remote : Type 0} (c : Client Remote) where
  -- The second step: an allocation of an earlier attempt is kept.
  compensate_allocation : ℕ → Bool → Remote → CompensationAction × Remote
  compensate_allocation allocation_id created remote =
      let released = c.release_allocation allocation_id remote in
      if created
      then (if released.0 then allocation_released else allocation_release_failed, released.1)
      else (allocation_preserved, remote)

  abbrev pub is_alarm : CompensationAction → Bool
  is_alarm config_rollback_check_failed = true
  is_alarm allocation_release_failed = true
  is_alarm _ = false

  base_record : Manifest → Grant → Bool → WorkflowStatus → WorkflowRecord
  base_record m g created status = record {
    manifest_hash = m.manifest_hash;
    status = status;
    allocation_id = some g.allocation_id;
    created_by_this_attempt = created;
    mutation_id = none;
    config_applied = false;
    ports = g.ports;
    compensation = [];
  }

  abbrev pub Ending : Type 0
  Ending = Result WorkflowError WorkflowRecord × Site Remote

  -- `_save_workflow_record`, and what follows if it succeeds
  unfoldable pub save_then : WorkflowRecord → Site Remote → Ending → Ending
  save_then r site done = if site.is_saveable r.status then done else (err escaped_os_error, site)

  unfoldable pub end_with :
      Result WorkflowError WorkflowRecord → WorkflowRecord → Site Remote → Ending
  unfolding save_then
  end_with answer r site = save_then r site (answer, record site { saved = some r })

  unfoldable pub released_after :
      Manifest
      → Grant
      → Bool
      → Option String
      → ConfigError
      → Site Remote
      → Option (List CompensationAction)
      → Ending
  unfolding compensate_allocation base_record end_with
  released_after m g created mutation_id e site none = (err escaped_os_error, site)
  released_after m g created mutation_id e site (some done) =
      let allocation = compensate_allocation g.allocation_id created site.remote in
      let actions = done ++ allocation.0 ∷ [] in
      end_with (err (if any is_alarm actions then compensation_failed e else config_failed e))
        (record (base_record m g created failed) {
          mutation_id = mutation_id;
          compensation = actions;
        })
        (record site { remote = allocation.1 })

  -- The handler of a failed configuration step
  unfoldable pub compensated :
      World → Manifest → Grant → Bool → Option String → ConfigError → Site Remote → Ending
  unfolding compensate_config released_after
  compensated w m g created mutation_id e site =
      let config = compensate_config w site.store mutation_id site.store.saved in
      released_after m g created mutation_id e (record site { store = config.1 }) config.0

  unfoldable pub after_apply :
      World → Manifest → Grant → Bool → String → Site Remote → MutationOutcome → Ending
  unfolding compensated base_record end_with
  after_apply w m g created mutation_id site (ok r, store) =
      let new : WorkflowRecord = record (base_record m g created applied) {
        mutation_id = some mutation_id;
        config_applied = true;
      } in
      end_with (ok new) new (record site { store = store })
  after_apply w m g created mutation_id site (err (raised e), store) =
      compensated w m g created (some mutation_id) e (record site { store = store })
  after_apply w m g created mutation_id site (err os_error, store) =
      (err escaped_os_error, record site { store = store })

  unfoldable pub configure :
      World
      → Manifest
      → Grant
      → Bool
      → String
      → Site Remote
      → Result Failure (List PlannedFile)
      → Ending
  unfolding after_apply persist_plan
  configure w m g created mutation_id site (err (raised e)) = compensated w m g created none e site
  configure w m g created mutation_id site (err os_error) = (err escaped_os_error, site)
  configure w m g created mutation_id site (ok files) =
      let store = persist_plan mutation_id files site.store in
      let tried =
        after_apply w m g created mutation_id (record site { store = store })
          (apply_mutation w store) in
      if w.is_record_writable MutationStatus.planned then tried else (err escaped_os_error, site)

  -- From an active allocation on
  unfoldable pub with_allocation :
      World → Planner → Manifest → String → Bool → Grant → Site Remote → Ending
  unfolding configure base_record save_then
  with_allocation w plan m mutation_id created g site =
      let new = base_record m g created allocated in
      let saved : Site Remote = record site { saved = some new } in
      let tried = configure w m g created mutation_id saved (plan saved.store.files g) in
      save_then new site (if m.has_config then tried else (ok new, saved))

  abbrev pub failed_record : Manifest → Option ℕ → WorkflowRecord
  failed_record m allocation_id = record {
    manifest_hash = m.manifest_hash;
    status = failed;
    allocation_id = allocation_id;
    created_by_this_attempt = false;
    mutation_id = none;
    config_applied = false;
    ports = [];
    compensation = [];
  }

  unfoldable pub with_reply :
      World → Planner → Manifest → String → Bool → Site Remote → Reply → Ending
  unfolding with_allocation end_with
  with_reply w plan m mutation_id created site refused =
      end_with (err allocation_unavailable) (failed_record m none) site
  with_reply w plan m mutation_id created site (granted g) =
      if g.is_active
      then with_allocation w plan m mutation_id (created && not g.idempotent_replay) g site
      else end_with (err state_inconsistent) (failed_record m (some g.allocation_id)) site

  -- `existing is None or not existing.get("allocation_id")`
  abbrev pub has_no_allocation : Option WorkflowRecord → Bool
  has_no_allocation none = true
  has_no_allocation (some r) = not (is_some r.allocation_id)

  unfoldable pub allocate_and_configure : World → Planner → Manifest → String → Site Remote → Ending
  unfolding with_reply
  allocate_and_configure w plan m mutation_id site =
      let reply = c.create_allocation site.remote in
      with_reply w plan m mutation_id (has_no_allocation site.saved)
        (record site { remote = reply.1 }) reply.0

  abbrev pub is_finished : Manifest → WorkflowStatus → Bool
  is_finished m applied = true
  is_finished m allocated = not m.has_config
  is_finished m failed = false

  unfoldable pub resume :
      World → Planner → Manifest → String → Site Remote → Option WorkflowRecord → Ending
  unfolding allocate_and_configure
  resume w plan m mutation_id site none = allocate_and_configure w plan m mutation_id site
  resume w plan m mutation_id site (some r) =
      let again = allocate_and_configure w plan m mutation_id site in
      if str_eq r.manifest_hash m.manifest_hash
      then if is_finished m r.status then (ok r, site) else again
      else (err idempotency_conflict, site)

  unfoldable pub apply_workflow : World → Planner → Manifest → String → Site Remote → Ending
  unfolding resume
  apply_workflow w plan m mutation_id site = resume w plan m mutation_id site site.saved
