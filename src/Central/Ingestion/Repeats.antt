-- ===== src/Central/Ingestion/Repeats.antt =====
-- A second snapshot of a host: one that was ingested before, and one that is not newer.
use port_forge.Prelude.{
  ℕ, ◌≤◌, ◌<◌, none, some, List, [], ◌∷◌, Option, true, false, ◌==◌, ◌≡◌, refl, sym, ap, ◌∙◌, ◌↔◌,
  inl, inr, arith, any-append, length, is_some, ==_iff,
}
use port_forge.Prelude.Result.{Result, ok, err, is_ok}
use port_forge.Central.Tables.{Host, Db}
use port_forge.Central.Probes.{host_by_id}
use port_forge.Central.Ingestion.{
  Snapshot, IngestionResult, SnapshotRejectedError, stale_snapshot, scanned, scan_of, committed,
  ingest_snapshot, is_scanned, repeated,
}
use port_forge.Central.Ingestion.Lookup.{mapped}
use port_forge.Central.Ingestion.Snapshots.{ingest_snapshot-committed}
use port_forge.Central.Ingestion.Delivery.{
  IsAdmissible, is_outdated, submit, submit-scans, submit-host, outcomes,
}

-- Requests, one after the other.
unfoldable pub submit_all : ℕ → List Snapshot → Db → Db
submit_all max_batch_size [] db = db
submit_all max_batch_size (s ∷ ss) db = submit_all max_batch_size ss (submit max_batch_size s db)

-- A scan id that is known stays known.
submit-is_scanned :
    (max_batch_size : ℕ) (s : Snapshot) (scan_id : ℕ) (db : Db)
    → is_scanned scan_id db ≡ true
    → is_scanned scan_id (submit max_batch_size s db) ≡ true
unfolding submit committed
submit-is_scanned max_batch_size s scan_id db k =
    for_answer (ingest_snapshot max_batch_size s db) refl
  where
    for_answer :
        (r : Result SnapshotRejectedError (IngestionResult × Db))
        → ingest_snapshot max_batch_size s db ≡ r
        → is_scanned scan_id (elim r [ ok accepted ↦ accepted.1 | err e ↦ db ]) ≡ true
    for_answer (err e) h = k
    for_answer (ok (r, db')) h =
        elim (ingest_snapshot-committed max_batch_size s db {r = r} {db' = db'} h) [
          | inl same ↦ ap (is_scanned scan_id) (sym same) ∙ k
          | inr (b, made) ↦
              ap (is_scanned scan_id) (sym made)
              ∙ any-append (λ c. c.id == scan_id) db.scans (scan_of s ∷ [])
              ∙ ground (arith, k)
        ]

submit_all-is_scanned :
    (max_batch_size : ℕ) (ss : List Snapshot) (scan_id : ℕ) (db : Db)
    → is_scanned scan_id db ≡ true
    → is_scanned scan_id (submit_all max_batch_size ss db) ≡ true
unfolding submit_all
submit_all-is_scanned max_batch_size [] scan_id db k = k
submit_all-is_scanned max_batch_size (s ∷ ss) scan_id db k =
    submit_all-is_scanned max_batch_size ss scan_id (submit max_batch_size s db)
      (submit-is_scanned max_batch_size s scan_id db k)

-- The answer to a repetition: accepted, with all counts 0.
abbrev pub IsNothingDone : ℕ → IngestionResult → Type 0
IsNothingDone scan_id r =
    (r.scan_id ≡ scan_id)
    × (r.accepted ≡ true)
    × (r.observations_processed ≡ 0)
    × (r.appeared ≡ 0)
    × (r.changed ≡ 0)
    × (r.disappeared ≡ 0)
    × (r.duplicates_merged ≡ 0)

-- Once a snapshot has been accepted, and after any further requests, a request with its scan id, of
-- whatever host, time and content but no larger than allowed, is answered as accepted with all counts
-- 0, and changes nothing.
pub submit-repeated :
    (max_batch_size : ℕ) (first again : Snapshot) (between : List Snapshot) (db : Db)
    → IsAdmissible max_batch_size first db
    → length again.observations ≤ max_batch_size
    → again.scan_id ≡ first.scan_id
    → let after = submit_all max_batch_size between (submit max_batch_size first db) in
      (r : IngestionResult) × (ingest_snapshot max_batch_size again after ≡ ok (r, after))
      × IsNothingDone first.scan_id r
unfolding ingest_snapshot repeated
submit-repeated max_batch_size first again between db g l e =
    let after = submit_all max_batch_size between (submit max_batch_size first db) in
    let known : is_scanned again.scan_id after ≡ true =
      submit_all-is_scanned max_batch_size between again.scan_id (submit max_batch_size first db) (
        submit-scans max_batch_size first db g again.scan_id
        ∙ ground (arith, e, ==_iff first.scan_id again.scan_id)) in
    (repeated again, ground (arith, l, known), (e, refl, refl, refl, refl, refl, refl))

-- After an accepted snapshot, another one of the host with a new scan id, no larger than allowed, is
-- accepted exactly if its time is later, and refused as stale exactly if it is the same or earlier.
pub submit-strictly_newer :
    (max_batch_size : ℕ) (first next : Snapshot) (db : Db)
    → IsAdmissible max_batch_size first db
    → next.host_id ≡ first.host_id
    → length next.observations ≤ max_batch_size
    → is_scanned next.scan_id (submit max_batch_size first db) ≡ false
    → ((is_ok (ingest_snapshot max_batch_size next (submit max_batch_size first db)) ≡ true)
        ↔ (first.observed_at < next.observed_at))
      × ((ingest_snapshot max_batch_size next (submit max_batch_size first db) ≡ err stale_snapshot)
          ↔ (next.observed_at ≤ first.observed_at))
submit-strictly_newer max_batch_size first next db g same l n =
    let after = submit max_batch_size first db in
    let (_, _, stale, accepted) = outcomes max_batch_size next after in
    let (known, older) = for_host (host_by_id first.host_id db.hosts) g.2 in
    let found : host_by_id next.host_id after.hosts
        ≡ mapped (scanned first.observed_at) (host_by_id first.host_id db.hosts) =
      ap (λ i. host_by_id i after.hosts) same ∙ submit-host max_batch_size first db g in
    (
      (
        λ e. elim (accepted.0 e).1 [
          | inl c ↦ absurd (ground (arith, c, n))
          | inr k ↦ older.0 (sym (ap (is_outdated next.observed_at) found) ∙ k.1)
        ],
        λ b. accepted.1 (
          l,
          inr (ap is_some found ∙ known, ap (is_outdated next.observed_at) found ∙ older.1 b),
        ),
      ),
      (
        λ e.
            late (host_by_id first.host_id db.hosts)
              (sym (ap (is_outdated next.observed_at) found) ∙ (stale.0 e).2),
        λ b. stale.1 (
          l,
          n,
          ap (is_outdated next.observed_at) found ∙ later (host_by_id first.host_id db.hosts) g.2 b,
        ),
      ),
    )
  where
    for_host :
        (o : Option Host)
        → is_some o ≡ true
        → (is_some (mapped (scanned first.observed_at) o) ≡ true)
          × ((is_outdated next.observed_at (mapped (scanned first.observed_at) o) ≡ false)
              ↔ (first.observed_at < next.observed_at))
    for_host none k = absurd (cc k)
    for_host (some host) k = ground arith

    late :
        (o : Option Host)
        → is_outdated next.observed_at (mapped (scanned first.observed_at) o) ≡ true
        → next.observed_at ≤ first.observed_at
    late none h = absurd (cc h)
    late (some host) h = ground (arith, h)

    later :
        (o : Option Host)
        → is_some o ≡ true
        → next.observed_at ≤ first.observed_at
        → is_outdated next.observed_at (mapped (scanned first.observed_at) o) ≡ true
    later none k b = absurd (cc k)
    later (some host) k b = ground (arith, b)
