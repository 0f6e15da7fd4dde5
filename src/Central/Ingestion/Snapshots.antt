-- ===== src/Central/Ingestion/Snapshots.antt =====
-- An accepted snapshot, binding by binding.
use mathlib.Core.Path.{subst}
use port_forge.Prelude.{
  ℕ, ◌≤◌, String, Option, none, some, List, [], ◌∷◌, Bool, true, false, not, ◌&&◌, ◌==◌, ◌≡◌, refl,
  sym, ap, ◌∙◌, ◌⊎◌, arith, find?, any, select, length, length-select-congr, any-congr, any-select,
  is_some, Bool-cases, inl, inr, Option-cases, ==_iff, if◌then◌else◌,
}
use port_forge.Prelude.Result.{ok}
use port_forge.Central.Vocabulary.{Protocol}
use port_forge.Central.Tables.{Host, Observation, Db}
use port_forge.Central.Probes.{host_by_id}
use port_forge.Central.Canonical.{has_key, canonicalize_observations}
use port_forge.Central.Canonical.Unique.{canonicalize_once}
use port_forge.Central.Ingestion.{
  Snapshot, IngestionResult, is_row, list_current_for_host, observe_each, diffed, start, committed,
  ingest_fresh, ingest_on, ingest_snapshot, is_scanned, is_stale,
}
use port_forge.Central.Ingestion.Lookup.{is_at, any-find?, find?-congr, current_row-find?}
use port_forge.Central.Ingestion.Mirror.{
  row_at, binding_after, observed_after, observe_each-row_at, remove_absent-row_at,
}
use port_forge.Central.Ingestion.Described.{described, binding_after-described}

pub length-select-never {ℓ} : {A : Type ℓ} (xs : List A) → length (select (λ x. false) xs) ≡ 0
length-select-never [] = refl
length-select-never (x ∷ xs) = length-select-never xs

find?-never {ℓ} : {A : Type ℓ} (xs : List A) → find? (λ x. false) xs ≡ none
find?-never [] = refl
find?-never (x ∷ xs) = find?-never xs

any-never {ℓ} : {A : Type ℓ} (xs : List A) → any (λ x. false) xs ≡ false
any-never [] = refl
any-never (x ∷ xs) = any-never xs

module _ (s : Snapshot) (b : Bool) (db : Db) (h port : ℕ) (protocol : Protocol)
    (address : String) where
  canonical_le_one :
      length (select (has_key port protocol address) (canonicalize_observations s.observations).0)
      ≤ 1
  canonical_le_one = ground (
    arith,
    (canonicalize_once s.observations).0 port protocol address,
    Bool-cases (any (has_key port protocol address) s.observations),
  )

  at-has_key :
      (s.host_id == h) ≡ true
      → (o : Observation)
      → is_at h port protocol address s.host_id o ≡ has_key port protocol address o
  at-has_key e o = ground (arith, e)

  at-never :
      (s.host_id == h) ≡ false
      → (o : Observation) → is_at h port protocol address s.host_id o ≡ false
  at-never e o = ground (arith, e)

  pub is_at_le_one :
      length (
        select
          (is_at h port protocol address s.host_id)
          (canonicalize_observations s.observations).0)
      ≤ 1
  is_at_le_one =
      let canonical = (canonicalize_observations s.observations).0 in
      elim (Bool-cases (s.host_id == h)) [
        | inl e ↦ omega (
          arith,
          canonical_le_one,
          length-select-congr (is_at h port protocol address s.host_id)
              (has_key port protocol address) canonical (at-has_key e),
        )
        | inr e ↦ omega (
          arith,
          length-select-congr (is_at h port protocol address s.host_id) (λ x. false) canonical
              (at-never e),
          length-select-never canonical,
        )
      ]

  -- The rows that were read are those of the host.
  read_rows :
      any
        (λ r. is_at h port protocol address s.host_id r.observed)
        (list_current_for_host s.host_id db.ports)
      ≡ (s.host_id == h) && is_some (row_at h port protocol address db.ports)
  unfolding is_row
  read_rows =
      any-select (λ r. is_at h port protocol address s.host_id r.observed)
        (λ r. r.host_id == s.host_id) db.ports
      ∙ elim (Bool-cases (s.host_id == h)) [
        | inl e ↦
            any-congr
              (λ r. (r.host_id == s.host_id) && is_at h port protocol address s.host_id r.observed)
              (is_row h port protocol address) db.ports (λ r. ground (arith, e, ==_iff s.host_id h))
            ∙ any-find? (is_row h port protocol address) (is_row h port protocol address) db.ports
            ∙ ground (arith, e)
        | inr e ↦
            any-congr
              (λ r. (r.host_id == s.host_id) && is_at h port protocol address s.host_id r.observed)
              (λ r. false) db.ports (λ r. ground (arith, e))
            ∙ any-never db.ports
            ∙ ground (arith, e)
      ]

  observed_rows :
      row_at h port protocol address
        (observe_each s b
          (list_current_for_host s.host_id db.ports)
          (canonicalize_observations s.observations).0
          (start db)).ports
      ≡ observed_after s
          (find?
            (is_at h port protocol address s.host_id)
            (canonicalize_observations s.observations).0)
          (row_at h port protocol address db.ports)
  unfolding start
  observed_rows =
      observe_each-row_at h port protocol address s b (list_current_for_host s.host_id db.ports)
        (canonicalize_observations s.observations).0 (start db) is_at_le_one
        (λ o m. ap is_some (current_row-find? h port protocol address s.host_id o db.ports m))

  pub diffed-row_at : row_at h port protocol address (diffed s b db).ports ≡ (
      if s.host_id == h
      then binding_after s
          (find? (has_key port protocol address) (canonicalize_observations s.observations).0)
          (row_at h port protocol address db.ports)
      else row_at h port protocol address db.ports)
  unfolding diffed binding_after observed_after
  diffed-row_at =
      let canonical = (canonicalize_observations s.observations).0 in
      let rows = list_current_for_host s.host_id db.ports in
      let removed =
        remove_absent-row_at h port protocol address s canonical rows
          (observe_each s b rows canonical (start db)) in
      elim (Bool-cases (s.host_id == h)) [
        | inl e ↦ elim (Option-cases (find? (has_key port protocol address) canonical)) [
          | inl n ↦ ground (
            arith,
            e,
            n,
            removed,
            read_rows,
            observed_rows,
            any-find? (has_key port protocol address) (has_key port protocol address) canonical,
            find?-congr (is_at h port protocol address s.host_id) (has_key port protocol address)
                canonical (at-has_key e),
            Option-cases (row_at h port protocol address db.ports),
          )
          | inr f ↦ ground (
            arith,
            e,
            f.1,
            removed,
            observed_rows,
            any-find? (has_key port protocol address) (has_key port protocol address) canonical,
            find?-congr (is_at h port protocol address s.host_id) (has_key port protocol address)
                canonical (at-has_key e),
          )
        ]
        | inr e ↦ ground (
          arith,
          e,
          removed,
          read_rows,
          observed_rows,
          find?-congr (is_at h port protocol address s.host_id) (λ x. false) canonical (at-never e),
          find?-never canonical,
        )
      ]

-- An accepted snapshot that is not a repetition.
ingest_snapshot-ok :
    (max_batch_size : ℕ) (s : Snapshot) (db : Db) {r : IngestionResult} {db' : Db}
    → is_scanned s.scan_id db ≡ false
    → ingest_snapshot max_batch_size s db ≡ ok (r, db')
    → (host : Host) × (host_by_id s.host_id db.hosts ≡ some host)
      × (is_stale s.observed_at host.last_scan_observed_at ≡ false)
      × (ingest_fresh s (not (is_some host.last_scan_observed_at)) db ≡ (r, db'))
unfolding ingest_snapshot ingest_on
ingest_snapshot-ok max_batch_size s db {r} {db'} new h =
    from_host (host_by_id s.host_id db.hosts) refl (ground (arith, new, h))
  where
    from_host :
        (o : Option Host)
        → host_by_id s.host_id db.hosts ≡ o
        → ingest_on s o db ≡ ok (r, db')
        → (host : Host) × (host_by_id s.host_id db.hosts ≡ some host)
          × (is_stale s.observed_at host.last_scan_observed_at ≡ false)
          × (ingest_fresh s (not (is_some host.last_scan_observed_at)) db ≡ (r, db'))
    from_host none e k = absurd (cc k)
    from_host (some host) e k =
        elim (Bool-cases (is_stale s.observed_at host.last_scan_observed_at)) [
          | inl t ↦ absurd (ground (arith, t, k))
          | inr t ↦ (host, e, t, ground (arith, t, k))
        ]

-- An accepted request changes nothing, or commits what the loops make of the tables.
pub ingest_snapshot-committed :
    (max_batch_size : ℕ) (s : Snapshot) (db : Db) {r : IngestionResult} {db' : Db}
    → ingest_snapshot max_batch_size s db ≡ ok (r, db')
    → (db ≡ db') ⊎ ((b : Bool) × (committed s (diffed s b db) db ≡ db'))
unfolding ingest_snapshot ingest_fresh
ingest_snapshot-committed max_batch_size s db accepted =
    elim (Bool-cases (is_scanned s.scan_id db)) [
      | inl c ↦ inl (ground (arith, c, accepted))
      | inr c ↦
          let f = ingest_snapshot-ok max_batch_size s db c accepted in
          inr (not (is_some f.0.last_scan_observed_at), ap (λ x. x.1) f.3)
    ]

pub ingest_snapshot-binding_after :
    (max_batch_size : ℕ) (s : Snapshot) (db : Db) {r : IngestionResult} {db' : Db}
    → is_scanned s.scan_id db ≡ false
    → ingest_snapshot max_batch_size s db ≡ ok (r, db')
    → (h port : ℕ) (protocol : Protocol) (address : String)
    → row_at h port protocol address db'.ports ≡ (
        if s.host_id == h
        then binding_after s
            (find? (has_key port protocol address) (canonicalize_observations s.observations).0)
            (row_at h port protocol address db.ports)
        else row_at h port protocol address db.ports)
unfolding ingest_fresh committed
ingest_snapshot-binding_after max_batch_size s db {r} {db'} new accepted h port protocol address =
    let f = ingest_snapshot-ok max_batch_size s db new accepted in
    ports_of (not (is_some f.0.last_scan_observed_at)) f.3
    ∙ diffed-row_at s (not (is_some f.0.last_scan_observed_at)) db h port protocol address
  where
    ports_of :
        (b : Bool)
        → ingest_fresh s b db ≡ (r, db')
        → row_at h port protocol address db'.ports
          ≡ row_at h port protocol address (diffed s b db).ports
    ports_of b e = sym (ap (λ x. row_at h port protocol address x.1.ports) e)

-- When a snapshot with a new scan id is accepted, each binding of its host has a row exactly if the
-- snapshot has an observation of it. That row has the snapshot's time and scan id and every value of
-- the canonical observation, with one exception: `first_seen` is that of the row which was there, if
-- there was one. Every binding of another host has the row it had.
pub ingest_snapshot-row_at :
    (max_batch_size : ℕ) (s : Snapshot) (db : Db) {r : IngestionResult} {db' : Db}
    → is_scanned s.scan_id db ≡ false
    → ingest_snapshot max_batch_size s db ≡ ok (r, db')
    → (h port : ℕ) (protocol : Protocol) (address : String)
    → row_at h port protocol address db'.ports ≡ (
        if s.host_id == h
        then described s
            (find? (has_key port protocol address) (canonicalize_observations s.observations).0)
            (row_at h port protocol address db.ports)
        else row_at h port protocol address db.ports)
ingest_snapshot-row_at max_batch_size s db {r} {db'} new accepted h port protocol address =
    ingest_snapshot-binding_after max_batch_size s db {r = r} {db' = db'} new accepted h port
      protocol address
    ∙ elim (Bool-cases (s.host_id == h)) [
      | inl e ↦
          let canonical = (canonicalize_observations s.observations).0 in
          let same : binding_after s (find? (has_key port protocol address) canonical)
                (row_at h port protocol address db.ports)
              ≡ described s (find? (has_key port protocol address) canonical)
                  (row_at h port protocol address db.ports) =
            subst
              (λ i.
                binding_after s (find? (has_key port protocol address) canonical)
                  (row_at i port protocol address db.ports)
                ≡ described s (find? (has_key port protocol address) canonical)
                    (row_at i port protocol address db.ports))
              ((==_iff s.host_id h).0 e)
              (binding_after-described s port protocol address canonical db.ports) in
          rw e same
      | inr e ↦ rw e refl
    ]
