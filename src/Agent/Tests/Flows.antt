-- ===== src/Agent/Tests/Flows.antt =====
-- The theorems on workflows and on purposes at concrete inputs.
use port_forge.Prelude.{
  inl, ℕ, suc, String, none, [], ◌∷◌, true, false, not, ◌&&◌, refl, ◌≡◌, ◌↔◌, ◌⊎◌, if◌then◌else◌,
}
use port_forge.Prelude.Result.{ok, err}
use port_forge.Agent.Mutations.{apply_failed, apply_mutation, resolve_within_root}
use port_forge.Agent.Workflow.{
  Manifest, Grant, granted, Client, Site, Planner, escaped_os_error, config_failed,
  compensation_failed, has_no_allocation, apply_workflow,
}
use port_forge.Agent.Workflow.Compensation.{apply_workflow_compensates}
use port_forge.Agent.Purpose.{Signal, low, resolve_signals}
use port_forge.Agent.Purpose.Majority.{IsMajority, IsChosen, is_decided, resolve_signals-IsMajority}
use port_forge.Agent.Tests.Changes.{guarded, store, plan}

abbrev grant : Grant
grant = record {
  allocation_id = 9;
  idempotent_replay = false;
  is_active = true;
  ports = ("web", 8080) ∷ [];
}

-- The server counts the releases.
abbrev client : Client ℕ
client = record {
  create_allocation = λ n. (granted grant, n);
  release_allocation = λ id n. (true, suc n);
}

abbrev manifest : Manifest
manifest = record { manifest_hash = "h1"; has_config = true }

abbrev planner : Planner
planner fs g = ok plan.files

abbrev site : Site ℕ
site = record { remote = 0; store = store; saved = none; is_saveable = λ s. true }

workflow_fails : apply_workflow client guarded planner manifest "m2" site ≡ (
  err (config_failed apply_failed),
  (apply_workflow client guarded planner manifest "m2" site).1,
)
unfolding apply_workflow apply_mutation resolve_within_root
workflow_fails = refl

apply_workflow_compensates_example :
    let ended = (apply_workflow client guarded planner manifest "m2" site).1 in
    ((path : String) → ended.store.files path ≡ site.store.files path)
    × (ended.remote ≡ (if has_no_allocation client none && not false then 1 else 0))
    × ((config_failed apply_failed ≡ config_failed apply_failed)
        ↔ (((has_no_allocation client none && not false) && not true) ≡ false))
    × ((config_failed apply_failed ≡ compensation_failed apply_failed)
        ↔ (((has_no_allocation client none && not false) && not true) ≡ true))
apply_workflow_compensates_example =
    apply_workflow_compensates client guarded planner manifest "m2" site grant apply_failed
      {e = config_failed apply_failed}
      {site' = (apply_workflow client guarded planner manifest "m2" site).1} refl refl refl
      workflow_fails (inl refl)

-- The server does not confirm the release.
abbrev unreleased : Client ℕ
unreleased = record client { release_allocation = λ id n. (false, n) }

release_fails :
    (apply_workflow unreleased guarded planner manifest "m2" site).0
    ≡ err (compensation_failed apply_failed)
unfolding apply_workflow apply_mutation resolve_within_root
release_fails = refl

abbrev signal : String → Signal
signal c = record { category = c; purpose = c; evidence = "process name" }

resolve_signals-IsMajority_example :
    ((c : String)
      → IsChosen c (resolve_signals (signal "cache" ∷ signal "api" ∷ signal "cache" ∷ []))
        ↔ IsMajority c (signal "cache" ∷ signal "api" ∷ signal "cache" ∷ []))
    × ((is_decided
            (resolve_signals (signal "cache" ∷ signal "api" ∷ signal "cache" ∷ [])).confidence
          ≡ true)
        ⊎ (((resolve_signals (signal "cache" ∷ signal "api" ∷ signal "cache" ∷ [])).category
              ≡ "unknown")
            × ((resolve_signals (signal "cache" ∷ signal "api" ∷ signal "cache" ∷ [])).confidence
                ≡ low)))
resolve_signals-IsMajority_example =
    resolve_signals-IsMajority (signal "cache") (signal "api" ∷ signal "cache" ∷ [])

cache_wins :
    (resolve_signals (signal "cache" ∷ signal "api" ∷ signal "cache" ∷ [])).category ≡ "cache"
unfolding resolve_signals
cache_wins = refl

-- A backup cannot be written: the error escapes, and the new allocation is not released.
backup_error_escapes :
    let ended =
      apply_workflow client
        (record guarded { is_backup_writable = λ n. false })
        planner
        manifest
        "m2"
        site in
    (ended.0 ≡ err escaped_os_error) × (ended.1.remote ≡ 0)
unfolding apply_workflow apply_mutation resolve_within_root
backup_error_escapes = (refl, refl)
