-- ===== src/Agent/Discovery.antt =====
-- Discovery on a host: agent/portforge_agent/discovery.py over what the collectors return. A
-- collector that fails is `none`.
pub mod Merge
use port_forge.Prelude.{
  ℕ, String, Option, none, some, List, [], ◌∷◌, ◌++◌, map, Bool, true, false, not, ◌&&◌, ◌||◌, ◌==◌,
  ltb, any, find?, select, is_some, or_default, is_truthy, opt_str_eq, str_eq, codes, text_lt,
  if◌then◌else◌,
}
use port_forge.Central.Vocabulary.{Protocol, protocol_eq, tcp, udp, Source}
use port_forge.Agent.Records.{Listener}
use port_forge.Agent.Evaluate.{logical_port}

abbrev same_number : Option ℕ → Option ℕ → Bool
same_number none none = true
same_number none (some _) = false
same_number (some _) none = false
same_number (some a) (some b) = a == b

-- `dedupe_key`
abbrev pub same_socket : Listener → Listener → Bool
same_socket a b =
    protocol_eq a.protocol b.protocol
    && (str_eq a.bind_address b.bind_address && (a.port == b.port && same_number a.pid b.pid))

-- The key of `discover_docker_ports`
abbrev pub same_publication : Listener → Listener → Bool
same_publication a b =
    protocol_eq a.protocol b.protocol
    && (str_eq a.bind_address b.bind_address
        && (same_number a.host_port b.host_port && opt_str_eq a.container_id b.container_id))

-- `deduped[key] = port`: a later one takes the place of the first of its key.
abbrev put : (Listener → Listener → Bool) → Listener → List Listener → List Listener
put same p [] = p ∷ []
put same p (d ∷ ds) = let rest = put same p ds in if same d p then p ∷ ds else d ∷ rest

unfoldable pub deduped :
    (Listener → Listener → Bool) → List Listener → List Listener → List Listener
deduped same ds [] = ds
deduped same ds (p ∷ ps) = deduped same (put same p ds) ps

abbrev protocol_rank : Protocol → ℕ
protocol_rank tcp = 0
protocol_rank udp = 1

-- The order of (port, protocol, bind_address), for a number taken from each.
unfoldable pub before : (Listener → ℕ) → Listener → Listener → Bool
before number a b =
    if number a == number b
    then if protocol_rank a.protocol == protocol_rank b.protocol
      then text_lt (codes a.bind_address) (codes b.bind_address)
      else ltb (protocol_rank a.protocol) (protocol_rank b.protocol)
    else ltb (number a) (number b)

-- `sorted`, which keeps the order of ties
unfoldable pub insert_sorted_by : (Listener → ℕ) → Listener → List Listener → List Listener
unfolding before
insert_sorted_by number p [] = p ∷ []
insert_sorted_by number p (x ∷ xs) =
    let rest = insert_sorted_by number p xs in if before number x p then x ∷ rest else p ∷ x ∷ xs

unfoldable pub sorted_by : (Listener → ℕ) → List Listener → List Listener
unfolding insert_sorted_by
sorted_by number [] = []
sorted_by number (p ∷ ps) = insert_sorted_by number p (sorted_by number ps)

-- `p.host_port or p.port`
abbrev published_port : Listener → ℕ
published_port p = elim p.host_port [ none ↦ p.port | some n ↦ if n == 0 then p.port else n ]

unfoldable pub discover_ports : Option (List Listener) → List Listener
unfolding deduped sorted_by
discover_ports none = []
discover_ports (some ports) = sorted_by (λ p. p.port) (deduped same_socket [] ports)

unfoldable pub discover_docker_ports : Option (List Listener) → List Listener
unfolding deduped sorted_by
discover_docker_ports none = []
discover_docker_ports (some ports) = sorted_by published_port (deduped same_publication [] ports)

-- The listener has this `_binding_key`.
unfoldable pub is_bound : Protocol → String → ℕ → Listener → Bool
is_bound protocol address port p =
    protocol_eq p.protocol protocol && (str_eq p.bind_address address && logical_port p == port)

abbrev pub same_binding : Listener → Listener → Bool
same_binding a b = is_bound a.protocol a.bind_address (logical_port a) b

-- `dataclasses.replace` of a Docker port with a native match
abbrev pub with_process : Listener → Listener → Listener
with_process docker native = record docker {
  pid = native.pid;
  process_name = native.process_name;
  process_path = native.process_path;
  working_directory = native.working_directory;
  raw_state = if is_truthy native.raw_state then native.raw_state else docker.raw_state;
}

abbrev joined_with : Listener → Option Listener → Listener
joined_with docker none = docker
joined_with docker (some native) = with_process docker native

-- `native_by_key.get(key)`: the first native port of the key.
abbrev pub native_match : List Listener → Listener → Option Listener
native_match natives d = find? (same_binding d) natives

unfoldable pub merged_docker : List Listener → Listener → Listener
unfolding is_bound
merged_docker natives d = joined_with d (native_match natives d)

-- The native port's key is in `consumed_native_keys`.
unfoldable pub is_consumed : List Listener → List Listener → Listener → Bool
unfolding is_bound
is_consumed natives dockers p =
    any (λ d. is_some (native_match natives d) && same_binding p d) dockers

unfoldable pub merge_native_and_docker : List Listener → List Listener → List Listener
unfolding merged_docker is_consumed sorted_by
merge_native_and_docker natives dockers = sorted_by published_port (
    map (merged_docker natives) dockers
    ++ select (λ p. not (is_consumed natives dockers p)) natives)

-- `discover_all_ports`, with the enrichment a parameter
unfoldable pub discover_all_ports :
    (List Listener → List Listener)
    → Option (List Listener)
    → Option (List Listener)
    → List Listener
unfolding merge_native_and_docker discover_ports discover_docker_ports
discover_all_ports enrich_ports native docker =
    enrich_ports (merge_native_and_docker (discover_ports native) (discover_docker_ports docker))

abbrev is_docker : Listener → Bool
is_docker p = elim p.source [ Source.docker ↦ true | _ ↦ false ]

unfoldable pub discover_docker_view :
    (List Listener → List Listener)
    → Option (List Listener)
    → Option (List Listener)
    → List Listener
unfolding discover_all_ports
discover_docker_view enrich_ports native docker =
    select is_docker (discover_all_ports enrich_ports native docker)
