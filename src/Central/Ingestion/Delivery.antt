-- ===== src/Central/Ingestion/Delivery.antt =====
-- Which snapshots are refused, and snapshots that arrive again, late or out of order.
use port_forge.Prelude.{
  ℕ, ◌≤◌, ◌<◌, String, Option, none, some, [], ◌∷◌, ◌++◌, Bool, true, false, not, ◌||◌, ◌==◌, ◌≡◌,
  refl, sym, ap, ◌∙◌, ◌↔◌, ◌⊎◌, arith, find?, any, any-append, length, is_some, update_first,
  Bool-cases, inl, inr, Option-cases, ==_iff, ltb, if◌then◌else◌,
}
use port_forge.Prelude.Result.{ok, err, is_ok}
use port_forge.Central.Vocabulary.{Protocol}
use port_forge.Central.Tables.{Host, Db}
use port_forge.Central.Probes.{host_by_id}
use port_forge.Central.Canonical.{has_key, canonicalize_observations}
use port_forge.Central.Ingestion.{
  Snapshot, IngestionResult, SnapshotRejectedError, batch_too_large, unknown_host, stale_snapshot,
  scanned, scan_of, committed, ingest_fresh, ingest_on, ingest_snapshot, is_scanned, is_stale,
  repeated,
}
use port_forge.Central.Ingestion.Lookup.{mapped, find?-update_first_same}
use port_forge.Central.Ingestion.Mirror.{row_at, binding_after}
use port_forge.Central.Ingestion.Snapshots.{ingest_snapshot-binding_after}

-- The host is known, and has a snapshot that is not older.
abbrev pub is_outdated : ℕ → Option Host → Bool
is_outdated observed_at none = false
is_outdated observed_at (some host) = is_stale observed_at host.last_scan_observed_at

-- The host is known, and its last snapshot has this time or a later one.
abbrev pub IsLate : ℕ → Option Host → Type 0
IsLate observed_at o =
    (host : Host) × (last : ℕ) × (o ≡ some host)
    × (host.last_scan_observed_at ≡ some last)
    × (observed_at ≤ last)

-- The host is known, and has no last snapshot, or one with an earlier time.
abbrev pub IsNewer : ℕ → Option Host → Type 0
IsNewer observed_at o =
    (host : Host) × (o ≡ some host)
    × ((host.last_scan_observed_at ≡ none)
        ⊎ ((last : ℕ) × (host.last_scan_observed_at ≡ some last) × (last < observed_at)))

is_outdated_iff : (t : ℕ) (o : Option Host) → (is_outdated t o ≡ true) ↔ IsLate t o
is_outdated_iff t none = (λ e. absurd (cc e), λ k. absurd (cc (k.2)))
is_outdated_iff t (some host) = (
  λ e. elim (Option-cases host.last_scan_observed_at) [
    | inl n ↦ absurd (ground (arith, n, e))
    | inr f ↦ (host, f.0, refl, f.1, ground (arith, f.1, e))
  ],
  λ (h, last, same, l, b). ap (is_outdated t) same ∙ ap (is_stale t) l ∙ ground (arith, b),
)

known_and_current_iff :
    (t : ℕ) (o : Option Host) → ((is_some o ≡ true) × (is_outdated t o ≡ false)) ↔ IsNewer t o
known_and_current_iff t none = (λ e. absurd (cc e.0), λ k. absurd (cc (k.1)))
known_and_current_iff t (some host) = (
  λ e. elim (Option-cases host.last_scan_observed_at) [
    | inl n ↦ (host, refl, inl n)
    | inr f ↦ (host, refl, inr (f.0, f.1, ground (arith, f.1, e.1)))
  ],
  λ (h, same, k). (
    refl,
    ap (is_outdated t) same ∙ elim k [
      | inl n ↦ ap (is_stale t) n
      | inr (last, l, b) ↦ ap (is_stale t) l ∙ ground (arith, b)
    ],
  ),
)

-- The snapshot is not too large, its scan id is new, its host is known, and it is newer than the
-- last one of the host.
abbrev pub IsAdmissible : ℕ → Snapshot → Db → Type 0
IsAdmissible max_batch_size s db =
    (length s.observations ≤ max_batch_size)
    × (is_scanned s.scan_id db ≡ false)
    × (is_some (host_by_id s.host_id db.hosts) ≡ true)
    × (is_outdated s.observed_at (host_by_id s.host_id db.hosts) ≡ false)

-- A request: a refused one is rolled back.
unfoldable pub submit : ℕ → Snapshot → Db → Db
submit max_batch_size s db = elim (ingest_snapshot max_batch_size s db) [
  | ok accepted ↦ accepted.1
  | err e ↦ db
]

module _ (max_batch_size : ℕ) (s : Snapshot) (db : Db) where
  within :
      length s.observations ≤ max_batch_size
      → is_scanned s.scan_id db ≡ false
      → ingest_snapshot max_batch_size s db ≡ ingest_on s (host_by_id s.host_id db.hosts) db
  unfolding ingest_snapshot
  within l n = ground (arith, l, n)

  pub outcomes :
      ((ingest_snapshot max_batch_size s db ≡ err batch_too_large)
        ↔ (max_batch_size < length s.observations))
      × ((ingest_snapshot max_batch_size s db ≡ err unknown_host) ↔ (
          (length s.observations ≤ max_batch_size)
          × (is_scanned s.scan_id db ≡ false)
          × (host_by_id s.host_id db.hosts ≡ none)))
      × ((ingest_snapshot max_batch_size s db ≡ err stale_snapshot) ↔ (
          (length s.observations ≤ max_batch_size)
          × (is_scanned s.scan_id db ≡ false)
          × (is_outdated s.observed_at (host_by_id s.host_id db.hosts) ≡ true)))
      × ((is_ok (ingest_snapshot max_batch_size s db) ≡ true) ↔ (
          (length s.observations ≤ max_batch_size)
          × ((is_scanned s.scan_id db ≡ true)
              ⊎ ((is_some (host_by_id s.host_id db.hosts) ≡ true)
                  × (is_outdated s.observed_at (host_by_id s.host_id db.hosts) ≡ false)))))
  unfolding ingest_snapshot ingest_on
  outcomes = for_each (host_by_id s.host_id db.hosts) (is_scanned s.scan_id db)
    where
      for_each :
          (o : Option Host) (c : Bool)
          → let r =
              if ltb max_batch_size (length s.observations)
              then err batch_too_large
              else if c
              then ok (repeated s, db)
              else ingest_on s o db in
            ((r ≡ err batch_too_large) ↔ (max_batch_size < length s.observations))
            × ((r ≡ err unknown_host)
                ↔ ((length s.observations ≤ max_batch_size) × (c ≡ false) × (o ≡ none)))
            × ((r ≡ err stale_snapshot) ↔ (
                (length s.observations ≤ max_batch_size)
                × (c ≡ false)
                × (is_outdated s.observed_at o ≡ true)))
            × ((is_ok r ≡ true) ↔ (
                (length s.observations ≤ max_batch_size)
                × ((c ≡ true) ⊎ ((is_some o ≡ true) × (is_outdated s.observed_at o ≡ false)))))
      for_each none c = ground arith
      for_each (some host) c = ground arith

  -- A request is refused for the first of three reasons, in this order: it has more observations than
  -- allowed; its host is unknown; its host's last snapshot has the same time or a later one. The
  -- latter two need a new scan id. It is accepted if it is not too large and its scan id is known, or
  -- its host is known and has no last snapshot or an older one.
  pub ingest_snapshot_err_iff :
      ((ingest_snapshot max_batch_size s db ≡ err batch_too_large)
        ↔ (max_batch_size < length s.observations))
      × ((ingest_snapshot max_batch_size s db ≡ err unknown_host) ↔ (
          (length s.observations ≤ max_batch_size)
          × (any (λ c. c.id == s.scan_id) db.scans ≡ false)
          × (find? (λ h. h.id == s.host_id) db.hosts ≡ none)))
      × ((ingest_snapshot max_batch_size s db ≡ err stale_snapshot) ↔ (
          (length s.observations ≤ max_batch_size)
          × (any (λ c. c.id == s.scan_id) db.scans ≡ false)
          × IsLate s.observed_at (find? (λ h. h.id == s.host_id) db.hosts)))
      × ((is_ok (ingest_snapshot max_batch_size s db) ≡ true) ↔ (
          (length s.observations ≤ max_batch_size)
          × ((any (λ c. c.id == s.scan_id) db.scans ≡ true)
              ⊎ IsNewer s.observed_at (find? (λ h. h.id == s.host_id) db.hosts))))
  ingest_snapshot_err_iff =
      let (large, unknown, stale, accepted) = outcomes in
      let late = is_outdated_iff s.observed_at (host_by_id s.host_id db.hosts) in
      let newer = known_and_current_iff s.observed_at (host_by_id s.host_id db.hosts) in
      (
        large,
        unknown,
        (λ e. let (l, n, o) = stale.0 e in (l, n, late.0 o), λ g. stale.1 (g.0, g.1, late.1 g.2)),
        (
          λ e. let (l, o) = accepted.0 e in (l, elim o [ inl c ↦ inl c | inr k ↦ inr (newer.0 k) ]),
          λ g. accepted.1 (g.0, elim g.1 [ inl c ↦ inl c | inr k ↦ inr (newer.1 k) ]),
        ),
      )

  pub admissible-ok :
      IsAdmissible max_batch_size s db
      → (r : IngestionResult) × (db' : Db) × (ingest_snapshot max_batch_size s db ≡ ok (r, db'))
        × (submit max_batch_size s db ≡ db')
        × (db'.hosts ≡ update_first (λ h. h.id == s.host_id) (scanned s.observed_at) db.hosts)
        × (db'.scans ≡ db.scans ++ scan_of s ∷ [])
  unfolding submit ingest_on ingest_fresh committed
  admissible-ok (l, n, k, f) = from_host (host_by_id s.host_id db.hosts) k f (within l n)
    where
      from_host :
          (o : Option Host)
          → is_some o ≡ true
          → is_outdated s.observed_at o ≡ false
          → ingest_snapshot max_batch_size s db ≡ ingest_on s o db
          → (r : IngestionResult) × (db' : Db) × (ingest_snapshot max_batch_size s db ≡ ok (r, db'))
            × (submit max_batch_size s db ≡ db')
            × (db'.hosts ≡ update_first (λ h. h.id == s.host_id) (scanned s.observed_at) db.hosts)
            × (db'.scans ≡ db.scans ++ scan_of s ∷ [])
      from_host none k f e = absurd (cc k)
      from_host (some host) k f e =
          let x = ingest_fresh s (not (is_some host.last_scan_observed_at)) db in
          let taken : ingest_snapshot max_batch_size s db ≡ ok x = ground (arith, e, f) in
          (
            x.0,
            x.1,
            taken,
            ap (λ r. elim r [ ok accepted ↦ accepted.1 | err e' ↦ db ]) taken,
            refl,
            refl,
          )

  -- After an accepted snapshot, its scan id is known and its host has its time.
  pub submit-scans :
      IsAdmissible max_batch_size s db
      → (scan_id : ℕ)
      → is_scanned scan_id (submit max_batch_size s db)
        ≡ (is_scanned scan_id db || (s.scan_id == scan_id))
  unfolding scan_of
  submit-scans g scan_id =
      let d = admissible-ok g in
      ap (is_scanned scan_id) d.3
      ∙ ap (any (λ c. c.id == scan_id)) d.5
      ∙ any-append (λ c. c.id == scan_id) db.scans (scan_of s ∷ [])
      ∙ ground arith

  pub submit-host :
      IsAdmissible max_batch_size s db
      → host_by_id s.host_id (submit max_batch_size s db).hosts
        ≡ mapped (scanned s.observed_at) (host_by_id s.host_id db.hosts)
  submit-host g =
      let d = admissible-ok g in
      ap (λ x. host_by_id s.host_id x.hosts) d.3
      ∙ ap (host_by_id s.host_id) d.4
      ∙ find?-update_first_same (λ h. h.id == s.host_id) (λ h. h.id == s.host_id)
          (scanned s.observed_at) db.hosts (λ h. refl) (λ h. refl)

  pub submit-row_at :
      IsAdmissible max_batch_size s db
      → (h port : ℕ) (protocol : Protocol) (address : String)
      → is_some (row_at h port protocol address (submit max_batch_size s db).ports) ≡ (
          if s.host_id == h
          then is_some
              (find? (has_key port protocol address) (canonicalize_observations s.observations).0)
          else is_some (row_at h port protocol address db.ports))
  unfolding binding_after
  submit-row_at g h port protocol address =
      let d = admissible-ok g in
      ap (λ x. is_some (row_at h port protocol address x.ports)) d.3
      ∙ ap is_some
          (ingest_snapshot-binding_after max_batch_size s db g.1 d.2 h port protocol address)
      ∙ ground (
        arith,
        Option-cases
            (find? (has_key port protocol address) (canonicalize_observations s.observations).0),
      )

pub refused :
    (max_batch_size : ℕ) (s : Snapshot) (db : Db) (e : SnapshotRejectedError)
    → ingest_snapshot max_batch_size s db ≡ err e
    → submit max_batch_size s db ≡ db
unfolding submit
refused max_batch_size s db e h = ap (λ r. elim r [ ok accepted ↦ accepted.1 | err e' ↦ db ]) h

outdated-refused :
    (max_batch_size : ℕ) (s : Snapshot) (db : Db)
    → length s.observations ≤ max_batch_size
    → is_scanned s.scan_id db ≡ false
    → is_outdated s.observed_at (host_by_id s.host_id db.hosts) ≡ true
    → submit max_batch_size s db ≡ db
outdated-refused max_batch_size s db l n o =
    refused max_batch_size s db stale_snapshot ((outcomes max_batch_size s db).2.1 (l, n, o))

module _ (max_batch_size : ℕ) (older newer : Snapshot) (db : Db)
    (g : IsAdmissible max_batch_size newer db) (same : older.host_id ≡ newer.host_id)
    (l : length older.observations ≤ max_batch_size) (n : is_scanned older.scan_id db ≡ false)
    (before : older.observed_at < newer.observed_at)
    (apart : (newer.scan_id == older.scan_id) ≡ false) where
  late-refused :
      submit max_batch_size older (submit max_batch_size newer db) ≡ submit max_batch_size newer db
  late-refused =
      outdated-refused max_batch_size older (submit max_batch_size newer db) l
        (submit-scans max_batch_size newer db g older.scan_id ∙ ground (arith, n, apart))
        (ap
            (λ i.
              is_outdated older.observed_at (host_by_id i (submit max_batch_size newer db).hosts))
            same
          ∙ ap (is_outdated older.observed_at) (submit-host max_batch_size newer db g)
          ∙ outdated (host_by_id newer.host_id db.hosts) g.2)
    where
      outdated :
          (o : Option Host)
          → is_some o ≡ true
          → is_outdated older.observed_at (mapped (scanned newer.observed_at) o) ≡ true
      outdated none k = absurd (cc k)
      outdated (some host) k = ground (arith, before)

  older_host : host_by_id older.host_id db.hosts ≡ host_by_id newer.host_id db.hosts
  older_host = ap (λ i. host_by_id i db.hosts) same

  newer-IsAdmissible :
      IsAdmissible max_batch_size older db
      → IsAdmissible max_batch_size newer (submit max_batch_size older db)
  newer-IsAdmissible a = (
    g.0,
    submit-scans max_batch_size older db a newer.scan_id
        ∙ ground (arith, g.1, apart, ==_iff newer.scan_id older.scan_id),
    ap is_some host_then ∙ known (host_by_id newer.host_id db.hosts) g.2,
    ap (is_outdated newer.observed_at) host_then ∙ current (host_by_id newer.host_id db.hosts),
  )
    where
      host_then :
          host_by_id newer.host_id (submit max_batch_size older db).hosts
          ≡ mapped (scanned older.observed_at) (host_by_id newer.host_id db.hosts)
      host_then =
          sym (ap (λ i. host_by_id i (submit max_batch_size older db).hosts) same)
          ∙ submit-host max_batch_size older db a
          ∙ ap (mapped (scanned older.observed_at)) older_host

      known :
          (o : Option Host)
          → is_some o ≡ true
          → is_some (mapped (scanned older.observed_at) o) ≡ true
      known none k = k
      known (some host) k = refl

      current :
          (o : Option Host)
          → is_outdated newer.observed_at (mapped (scanned older.observed_at) o) ≡ false
      current none = refl
      current (some host) = ground (arith, before)

  -- Two snapshots of one host with different, new scan ids leave the same bindings occupied on every
  -- host in whichever order they arrive, if the newer one is admissible and neither is too large.
  pub submit_any_order :
      (h port : ℕ) (protocol : Protocol) (address : String)
      → is_some (
          row_at h port protocol address
            (submit max_batch_size newer (submit max_batch_size older db)).ports)
        ≡ is_some (
            row_at h port protocol address
              (submit max_batch_size older (submit max_batch_size newer db)).ports)
  submit_any_order h port protocol address =
      let occupied : Db → Bool = λ x. is_some (row_at h port protocol address x.ports) in
      elim (Bool-cases (is_outdated older.observed_at (host_by_id older.host_id db.hosts))) [
        | inl o ↦
            ap (λ x. occupied (submit max_batch_size newer x))
              (outdated-refused max_batch_size older db l n o)
            ∙ sym (ap occupied late-refused)
        | inr o ↦
            let a : IsAdmissible max_batch_size older db = (l, n, ap is_some older_host ∙ g.2, o) in
            submit-row_at max_batch_size newer (submit max_batch_size older db)
              (newer-IsAdmissible a) h port protocol address
            ∙ ground (
              arith,
              ==_iff older.host_id h,
              ==_iff newer.host_id h,
              same,
              submit-row_at max_batch_size older db a h port protocol address,
              submit-row_at max_batch_size newer db g h port protocol address,
            )
            ∙ sym (ap occupied late-refused)
      ]
