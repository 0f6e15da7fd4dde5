-- ===== src/Agent/Tests/Changes.antt =====
-- The theorems on discovery and on changes of configuration files at concrete inputs.
use port_forge.Prelude.{
  inl, String, Option, none, some, [], ◌∷◌, Bool, true, false, refl, ◌≡◌, ◌&&◌, select, any, length,
  opt_str_eq, str_eq, if◌then◌else◌,
}
use port_forge.Prelude.Result.{ok, err}
use port_forge.Central.Vocabulary.{tcp, Source}
use port_forge.Agent.Records.{Listener}
use port_forge.Agent.Discovery.{is_bound, merge_native_and_docker}
use port_forge.Agent.Discovery.Merge.{merge-is_bound}
use port_forge.Agent.Mutations.{
  resolve_within_root, planned, applied, PlannedFile, MutationRecord, Files, Store, World, raised,
  os_error, apply_failed, apply_mutation, rollback_mutation,
}
use port_forge.Agent.Mutations.Restore.{apply_mutation_all_or_nothing}
use port_forge.Agent.Mutations.Traces.{are_apart}
use port_forge.Agent.Mutations.Rollback.{IsUndoneIn, rollback_mutation-apply_mutation}

abbrev proxy : Listener
proxy = record {
  source = Source.process;
  port = 8080;
  host_port = some 8080;
  protocol = tcp;
  bind_address = "0.0.0.0";
  pid = some 9;
  process_name = some "docker-proxy";
  process_path = none;
  working_directory = none;
  raw_state = some "LISTEN";
  container_id = none;
  container_name = none;
  project_name = none;
}

abbrev container : Listener
container = record proxy {
  source = Source.docker;
  pid = none;
  process_name = none;
  raw_state = none;
  container_id = some "c1";
  container_name = some "web";
}

abbrev of_web : Listener → Bool
of_web p = opt_str_eq p.container_name (some "web")

merge-is_bound_example :
    length (
      select
        (λ p. is_bound tcp "0.0.0.0" 8080 p && of_web p)
        (merge_native_and_docker (proxy ∷ proxy ∷ []) (container ∷ [])))
    ≡ (if any (is_bound tcp "0.0.0.0" 8080) (container ∷ [])
        then length (select (λ p. is_bound tcp "0.0.0.0" 8080 p && of_web p) (container ∷ []))
        else length (select (λ p. is_bound tcp "0.0.0.0" 8080 p && of_web p) (proxy ∷ proxy ∷ [])))
merge-is_bound_example =
    merge-is_bound tcp "0.0.0.0" 8080 of_web (proxy ∷ proxy ∷ []) (container ∷ []) (λ d n. refl)

abbrev world : World
world = record {
  resolve = λ p. p;
  is_relative_to_root = λ p. true;
  sha256 = λ c. c;
  is_compose = λ c. true;
  is_kubernetes = λ c. true;
  is_writable = λ p. true;
  is_restorable = λ p. true;
  is_backup_writable = λ n. true;
  is_record_writable = λ s. true;
}

-- The second file cannot be replaced.
abbrev pub guarded : World
guarded = record world { is_writable = λ p. if str_eq p "b" then false else true }

abbrev disk : Files
disk q = if str_eq q "a" then some "x=1" else none

abbrev change : String → Option String → PlannedFile
change path before = record {
  relative_path = path;
  kind = "dotenv";
  before_hash = before;
  new_content = "x=2";
  after_hash = none;
}

abbrev pub plan : MutationRecord
plan = record {
  mutation_id = "m1";
  status = planned;
  files = change "a" (some "x=1") ∷ change "b" none ∷ [];
}

abbrev pub store : Store
store = record { files = disk; backups = λ n. none; saved = some plan }

guarded_fails :
    apply_mutation guarded store ≡ (err (raised apply_failed), (apply_mutation guarded store).1)
unfolding apply_mutation resolve_within_root
guarded_fails = refl

apply_mutation_all_or_nothing_example :
    ((path : String) → (apply_mutation guarded store).1.files path ≡ store.files path)
    × ((apply_mutation guarded store).1.saved ≡ store.saved)
apply_mutation_all_or_nothing_example =
    apply_mutation_all_or_nothing guarded store {e = raised apply_failed}
      {store' = (apply_mutation guarded store).1} guarded_fails (inl (λ x. absurd (cc x)))

abbrev done : MutationRecord
done = record plan {
  status = applied;
  files =
      record (change "a" (some "x=1")) { after_hash = some "x=2" }
      ∷ record (change "b" none) { after_hash = some "x=2" }
      ∷ [];
}

world_succeeds : apply_mutation world store ≡ (ok done, (apply_mutation world store).1)
unfolding apply_mutation resolve_within_root
world_succeeds = refl

plan_apart : are_apart world plan.files ≡ true
unfolding resolve_within_root
plan_apart = refl

rollback_mutation-apply_mutation_example : IsUndoneIn world store (apply_mutation world store).1
rollback_mutation-apply_mutation_example =
    rollback_mutation-apply_mutation world store plan {r' = done}
      {after = (apply_mutation world store).1} (λ p. refl) refl refl refl plan_apart
      (refl, (refl, tt)) world_succeeds

-- Two files of one backup name: the rollback gives the first the content of the second.
abbrev crossed : Store
crossed = record {
  files = λ q. if str_eq q "a/b" then some "1" else if str_eq q "a__b" then some "2" else none;
  backups = λ n. none;
  saved = some (record plan { files = change "a/b" (some "1") ∷ change "a__b" (some "2") ∷ [] });
}

crossed_rollback :
    (rollback_mutation world (apply_mutation world crossed).1).1.files "a/b" ≡ some "2"
unfolding rollback_mutation apply_mutation resolve_within_root
crossed_rollback = refl

-- The second file can neither be written nor, once the first is, can the first be put back.
abbrev stuck : World
stuck = record guarded { is_restorable = λ p. false }

stuck_half_written :
    ((apply_mutation stuck store).0 ≡ err os_error)
    × ((apply_mutation stuck store).1.files "a" ≡ some "x=2")
unfolding apply_mutation resolve_within_root
stuck_half_written = (refl, refl)
