-- ===== src/Agent/Tests.antt =====
-- The theorems on the agent at concrete inputs.
mod Changes
mod Flows
use port_forge.Prelude.{
  ℕ, String, none, some, List, [], ◌∷◌, Bool, true, refl, ◌≡◌, ◌≢◌, ◌↔◌, arith, any, select, ◌||◌,
  eq_iff,
}
use port_forge.Central.Vocabulary.{Protocol, tcp, Source, conflict}
use port_forge.Agent.Records.{Listener, Reservation, Claim, create}
use port_forge.Agent.Evaluate.{evaluate_port, evaluate_all, listens_on, is_for}
use port_forge.Agent.Evaluate.States.{Means, evaluate_port_iff}
use port_forge.Agent.Evaluate.Slots.{evaluate_all-slots, is_slot, IsSortedFrom}
use port_forge.Agent.Reserve.{
  Run, reserve, release, sync_project_reservations, reserve_success, find_exact,
}
use port_forge.Agent.Reserve.Ownership.{
  is_foreign, HasIds, reserve-foreign, release-foreign, sync-foreign,
}
use port_forge.Agent.Reserve.History.{
  IsStore, reserving, releasing, stop, next, Commands-IsStore, reserve-found, release-reserve,
}
use port_forge.Agent.Recommend.{
  PortForgeConfig, default_ranges, RecommendRequest, recommend_port, recommend_and_reserve,
  range_for, layers_of,
}
use port_forge.Agent.Recommend.Sequence.{IsFirstPassing, recommend_port-IsFirstPassing}
use port_forge.Agent.Recommend.Exclusive.{
  IsGiven, recommend_and_reserve-IsGiven, recommend_and_reserve-exclusive,
}

abbrev listener : Listener
listener = record {
  source = Source.process;
  port = 3000;
  host_port = some 3000;
  protocol = tcp;
  bind_address = "127.0.0.1";
  pid = some 7;
  process_name = some "node";
  process_path = none;
  working_directory = none;
  raw_state = none;
  container_id = none;
  container_name = none;
  project_name = none;
}

abbrev claim : ℕ → String → Claim
claim port project = record {
  port = port;
  project = project;
  protocol = tcp;
  service = none;
  purpose = none;
  bind_address = none;
  notes = none;
}

abbrev run : ℕ → Run
run id = record { host_id = "laptop"; discovered = listener ∷ []; now = 9; new_id = id }

abbrev kept : Reservation
kept = create "laptop" (claim 3001 "Blog") 1 2

abbrev file : List Reservation
file = kept ∷ []

evaluate_port_iff_example :
    ((evaluate_port "laptop" 3000 tcp (some listener) (some kept)).state ≡ conflict)
    ↔ Means conflict (some listener) (some kept)
evaluate_port_iff_example = evaluate_port_iff "laptop" 3000 tcp (some listener) (some kept) conflict

evaluate_all-slots_example :
    ((port : ℕ) (protocol : Protocol)
      → any (is_slot port protocol) (evaluate_all "laptop" (listener ∷ []) file) ≡ (
          any (listens_on port protocol) (listener ∷ [])
          || any (is_for "laptop" port protocol) file))
    × IsSortedFrom 0 (evaluate_all "laptop" (listener ∷ []) file)
evaluate_all-slots_example = evaluate_all-slots "laptop" (listener ∷ []) file

reserve-foreign_example :
    select (is_foreign "shop") (reserve (run 5) (claim 3002 "shop") file).rows
    ≡ select (is_foreign "shop") file
reserve-foreign_example = reserve-foreign (run 5) (claim 3002 "shop") file

file_ids : HasIds file
file_ids = (refl, tt)

release-foreign_example :
    select (is_foreign "blog") (release "laptop" 3001 "blog" tcp file).rows
    ≡ select (is_foreign "blog") file
release-foreign_example = release-foreign "laptop" 3001 "blog" tcp file file_ids

file-IsStore : IsStore file
file-IsStore = ((refl, tt), (refl, tt))

Commands-IsStore_example :
    IsStore (release "laptop" 3001 "blog" tcp (reserve (run 5) (claim 3002 "shop") file).rows).rows
Commands-IsStore_example =
    Commands-IsStore
      (next (reserving (run 5) (claim 3002 "shop") file refl) (
        next (releasing "laptop" 3001 "blog" tcp (reserve (run 5) (claim 3002 "shop") file).rows) (
          stop
            (release "laptop" 3001 "blog" tcp
              (reserve (run 5) (claim 3002 "shop") file).rows).rows)))
      file-IsStore

made : reserve_success (reserve (run 5) (claim 3002 "shop") file).outcome ≡ true
unfolding reserve
made = refl

named : (claim 3002 "shop").project ≢ ""
named h = ground (arith, eq_iff (claim 3002 "shop").project "", h)

release-reserve_example :
    (release "laptop" 3002 "shop" tcp (reserve (run 5) (claim 3002 "shop") file).rows).rows ≡ file
release-reserve_example = release-reserve (run 5) (claim 3002 "shop") file named refl refl made

abbrev config : PortForgeConfig
config = record { ranges = default_ranges; exclusions = (3002, 3002) ∷ [] }

abbrev bindable : ℕ → Bool
bindable port = true

abbrev wish : RecommendRequest
wish = record {
  service_type = "frontend";
  project = "shop";
  service = none;
  purpose = none;
  protocol = tcp;
  notes = none;
}

frontend : range_for config "frontend" ≡ some (3000, 3999)
unfolding range_for
frontend = refl

recommend_port-IsFirstPassing_example :
    IsFirstPassing
      (layers_of config bindable (run 5) wish file)
      (3000, 3999)
      (recommend_port (layers_of config bindable (run 5) wish file) "frontend").recommended_port
recommend_port-IsFirstPassing_example =
    recommend_port-IsFirstPassing (layers_of config bindable (run 5) wish file) "frontend"
      (3000, 3999) frontend

-- The ports 3000, 3001 and 3002 are in use, reserved and excluded.
abbrev first_given : Reservation
first_given = create "laptop" (claim 3003 "shop") 5 9

abbrev second_given : Reservation
second_given = create "laptop" (claim 3004 "shop") 6 9

gives_first :
    (recommend_and_reserve config bindable (run 5) wish file).1
    ≡ (some first_given, kept ∷ first_given ∷ [])
unfolding recommend_and_reserve
gives_first = refl

gives_second :
    (recommend_and_reserve config bindable (run 6) wish (kept ∷ first_given ∷ [])).1
    ≡ (some second_given, kept ∷ first_given ∷ second_given ∷ [])
unfolding recommend_and_reserve
gives_second = refl

recommend_and_reserve-IsGiven_example :
    IsGiven config bindable (run 5) wish file first_given (kept ∷ first_given ∷ [])
recommend_and_reserve-IsGiven_example =
    recommend_and_reserve-IsGiven config bindable (run 5) wish file gives_first

recommend_and_reserve-exclusive_example :
    (first_given.port ≢ second_given.port) × IsStore (kept ∷ first_given ∷ second_given ∷ [])
recommend_and_reserve-exclusive_example =
    recommend_and_reserve-exclusive config config bindable bindable (run 5) (run 6) wish wish file
      refl refl refl refl file-IsStore gives_first gives_second
