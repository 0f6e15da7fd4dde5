-- ===== src/Central/Ingestion/History.antt =====
-- The log of port events (`port_observation_events`), replayed, against the table of current ports.
use port_forge.Prelude.{
  ℕ, String, Option, none, some, List, [], ◌∷◌, ◌++◌, Bool, true, false, ◌&&◌, ◌==◌, ◌≡◌, refl, sym,
  ap, ◌∙◌, arith, any, is_some, update_first, str_eq, Bool-cases, inl, inr, Option-cases,
  if◌then◌else◌,
}
use port_forge.Prelude.Result.{ok}
use port_forge.Central.Vocabulary.{
  Protocol, protocol_eq, ChangeType, appeared, changed, disappeared,
}
use port_forge.Central.Tables.{Observation, CurrentPort, PortEvent, Db}
use port_forge.Central.Canonical.{has_key, same_key, canonicalize_observations}
use port_forge.Central.Ingestion.{
  Snapshot, IngestionResult, Progress, is_row, is_row_for, fresh_row, refresh_row, refresh_existing,
  appear, disappear, port_event, current_row, list_current_for_host, observe_against, observe_each,
  remove_absent, meaningfully_changed, diffed, start, committed, ingest_snapshot,
}
use port_forge.Central.Ingestion.Lookup.{
  is_at, mapped, find?-append, find?-update_first_same, find?-update_first_apart, find?-select_same,
  find?-select_apart, is_row-same, is_row-apart, is_row-refresh_row, is_row-fresh_row,
}
use port_forge.Central.Ingestion.Mirror.{row_at}
use port_forge.Central.Ingestion.Snapshots.{ingest_snapshot-committed}
use mathlib.Core.Path.{subst}

-- Whether the binding is occupied after the event, if it was as given before.
abbrev pub after_change : Bool → ChangeType → Bool
after_change before appeared = true
after_change before changed = before
after_change before disappeared = false

abbrev pub is_event : ℕ → ℕ → Protocol → String → PortEvent → Bool
is_event h port protocol address e =
    e.host_id == h
    && (e.port == port && (protocol_eq e.protocol protocol && str_eq e.bind_address address))

unfoldable pub replay_events : ℕ → ℕ → Protocol → String → Bool → List PortEvent → Bool
replay_events h port protocol address before [] = before
replay_events h port protocol address before (e ∷ es) =
    replay_events h port protocol address
      (if is_event h port protocol address e then after_change before e.event_type else before) es

-- The log, replayed from an empty table, tells for each binding whether it has a row.
unfoldable pub IsRecorded : Db → Type 0
IsRecorded db =
    (h port : ℕ) (protocol : Protocol) (address : String)
    → replay_events h port protocol address false db.port_events
      ≡ is_some (row_at h port protocol address db.ports)

module _ (h port : ℕ) (protocol : Protocol) (address : String) (s : Snapshot) where
  replay_events-append :
      (before : Bool) (es : List PortEvent) (e : PortEvent)
      → replay_events h port protocol address before (es ++ e ∷ []) ≡ (
          if is_event h port protocol address e
          then after_change (replay_events h port protocol address before es) e.event_type
          else replay_events h port protocol address before es)
  unfolding replay_events
  replay_events-append before [] e = refl
  replay_events-append before (x ∷ es) e =
      replay_events-append
        (if is_event h port protocol address x then after_change before x.event_type else before) es
        e

  is_event-port_event :
      (t : ChangeType) (o : Observation)
      → is_event h port protocol address (port_event s t o)
        ≡ is_at h port protocol address s.host_id o
  unfolding has_key
  is_event-port_event t o = refl

  -- The events so far and the rows so far agree.
  Agrees : Progress → Type 0
  Agrees p =
      replay_events h port protocol address false p.events
      ≡ is_some (row_at h port protocol address p.ports)

  is_some-refresh_row :
      (o : Observation) (rows : List CurrentPort)
      → is_some (
          row_at h port protocol address
            (update_first (is_row_for s.host_id o) (refresh_row s o) rows))
        ≡ is_some (row_at h port protocol address rows)
  is_some-refresh_row o rows = elim (Bool-cases (is_at h port protocol address s.host_id o)) [
    | inl m ↦
        ap is_some (
          find?-update_first_same (is_row h port protocol address) (is_row_for s.host_id o)
            (refresh_row s o) rows (is_row-refresh_row h port protocol address s o)
            (λ r. is_row-same h port protocol address s.host_id o r m))
        ∙ is_some-mapped (row_at h port protocol address rows)
    | inr m ↦ ap is_some (
        find?-update_first_apart (is_row h port protocol address) (is_row_for s.host_id o)
          (refresh_row s o) rows (is_row-refresh_row h port protocol address s o)
          (λ r e. is_row-apart h port protocol address s.host_id o r m e))
  ]
    where
      is_some-mapped : (x : Option CurrentPort) → is_some (mapped (refresh_row s o) x) ≡ is_some x
      is_some-mapped none = refl
      is_some-mapped (some r) = refl

  observe_against-Agrees :
      (b : Bool) (o : Observation) (current : Option CurrentPort) (p : Progress)
      → Agrees p
      → Agrees (observe_against s b o current p)
  unfolding Agrees observe_against appear refresh_existing
  observe_against-Agrees b o none p a =
      replay_events-append false p.events (port_event s appeared o)
      ∙ ground (
        arith,
        a,
        is_event-port_event appeared o,
        find?-append (is_row h port protocol address) (is_row h port protocol address) p.ports
            (fresh_row s o ∷ []),
        is_row-fresh_row h port protocol address s o,
        Option-cases (row_at h port protocol address p.ports),
      )
  observe_against-Agrees b o (some existing) p a =
      elim (Bool-cases (meaningfully_changed existing.observed o)) [
        | inl d ↦
            ap
              (λ c.
                replay_events h port protocol address false
                  (if c then p.events ++ port_event s changed o ∷ [] else p.events))
              d
            ∙ replay_events-append false p.events (port_event s changed o)
            ∙ ground (arith, a, is_some-refresh_row o p.ports)
        | inr d ↦
            ap
              (λ c.
                replay_events h port protocol address false
                  (if c then p.events ++ port_event s changed o ∷ [] else p.events))
              d
            ∙ a
            ∙ sym (is_some-refresh_row o p.ports)
      ]

  disappear-Agrees : (r : CurrentPort) (p : Progress) → Agrees p → Agrees (disappear s r p)
  unfolding Agrees disappear
  disappear-Agrees r p a =
      replay_events-append false p.events (port_event s disappeared r.observed)
      ∙ elim (Bool-cases (is_at h port protocol address s.host_id r.observed)) [
        | inl m ↦ ground (
          arith,
          m,
          is_event-port_event disappeared r.observed,
          find?-select_same (is_row h port protocol address) (is_row_for s.host_id r.observed)
              p.ports (λ x. is_row-same h port protocol address s.host_id r.observed x m),
        )
        | inr m ↦ ground (
          arith,
          m,
          a,
          is_event-port_event disappeared r.observed,
          find?-select_apart (is_row h port protocol address) (is_row_for s.host_id r.observed)
              p.ports (λ x e. is_row-apart h port protocol address s.host_id r.observed x m e),
        )
      ]

  observe_each-Agrees :
      (b : Bool) (rows : List CurrentPort) (os : List Observation) (p : Progress)
      → Agrees p
      → Agrees (observe_each s b rows os p)
  unfolding observe_each
  observe_each-Agrees b rows [] p a = a
  observe_each-Agrees b rows (o ∷ os) p a =
      observe_each-Agrees b rows os (observe_against s b o (current_row o rows) p)
        (observe_against-Agrees b o (current_row o rows) p a)

  remove_absent-Agrees :
      (canonical : List Observation) (rows : List CurrentPort) (p : Progress)
      → Agrees p
      → Agrees (remove_absent s canonical rows p)
  unfolding remove_absent
  remove_absent-Agrees canonical [] p a = a
  remove_absent-Agrees canonical (r ∷ rows) p a =
      remove_absent-Agrees canonical rows
        (if any (same_key r.observed) canonical then p else disappear s r p)
        (kept_or_gone (any (same_key r.observed) canonical))
    where
      kept_or_gone : (c : Bool) → Agrees (if c then p else disappear s r p)
      kept_or_gone true = a
      kept_or_gone false = disappear-Agrees r p a

-- An accepted snapshot keeps the log and the table in agreement: if the log, replayed, told for each
-- binding of each host whether it has a row, it still does.
pub ingest_snapshot-IsRecorded :
    (max_batch_size : ℕ) (s : Snapshot) (db : Db) {r : IngestionResult} {db' : Db}
    → ingest_snapshot max_batch_size s db ≡ ok (r, db')
    → IsRecorded db
    → IsRecorded db'
unfolding IsRecorded diffed committed start Agrees
ingest_snapshot-IsRecorded max_batch_size s db {r} {db'} accepted recorded =
    elim (ingest_snapshot-committed max_batch_size s db accepted) [
      | inl same ↦ subst (λ d. IsRecorded d) same recorded
      | inr new ↦ subst (λ d. IsRecorded d) new.1 (loops new.0)
    ]
  where
    loops : (b : Bool) → IsRecorded (committed s (diffed s b db) db)
    loops b h port protocol address =
        remove_absent-Agrees h port protocol address s (canonicalize_observations s.observations).0
          (list_current_for_host s.host_id db.ports)
          (observe_each s b (list_current_for_host s.host_id db.ports)
            (canonicalize_observations s.observations).0 (start db))
          (observe_each-Agrees h port protocol address s b
            (list_current_for_host s.host_id db.ports) (canonicalize_observations s.observations).0
            (start db) (recorded h port protocol address))
