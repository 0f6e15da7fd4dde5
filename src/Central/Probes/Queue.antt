-- ===== src/Central/Probes/Queue.antt =====
-- Queuing and delivering probes: what they write, and the bound on the queue of a host.
use port_forge.Prelude.{
  ℕ, ◌+◌, ◌≤◌, String, Option, none, some, List, [], ◌∷◌, ◌++◌, ◌≡◌, refl, inl, inr, arith,
  Option-cases, Bool-cases, true, length, select, length-append, select-append, if◌then◌else◌,
}
use port_forge.Central.Vocabulary.{Protocol}
use port_forge.Central.Tables.{Db, Env, Host, HostProbe}
use port_forge.Central.Health.{host_health}
use port_forge.Central.Probes.{
  host_by_id, queue_probe, queue_for_host, queue_unless_open, still_open, find_latest_for_binding,
  count_active_for_host, is_healthy, new_probe, is_active_for,
}

-- All tables but the probes are as they were.
pub record SameButProbes (old new : Db) : Type 0 where
  pub hosts : new.hosts ≡ old.hosts
  pub reservations : new.reservations ≡ old.reservations
  pub allocations : new.allocations ≡ old.allocations
  pub ports : new.ports ≡ old.ports
  pub activity : new.activity ≡ old.activity
  pub upgrades : new.upgrades ≡ old.upgrades

pub SameButProbes-refl : (db : Db) → SameButProbes db db
SameButProbes-refl db = record {
  hosts = refl;
  reservations = refl;
  allocations = refl;
  ports = refl;
  activity = refl;
  upgrades = refl;
}

-- No host has more open and unexpired probes than the settings allow.
abbrev pub IsBounded : Env → List HostProbe → Type 0
IsBounded env probes =
    (h : ℕ) → count_active_for_host h env.now probes ≤ env.settings.max_pending_probes_per_host

module _ (env : Env) (host_id port : ℕ) (protocol : Protocol) (bind_address : String)
    (db : Db) where
  queue_unless_open-SameButProbes :
      (o : Option HostProbe)
      → SameButProbes db (queue_unless_open env host_id port protocol bind_address o db).1
  unfolding queue_unless_open
  queue_unless_open-SameButProbes none = ground arith
  queue_unless_open-SameButProbes (some p) = SameButProbes-refl db

  queue_for_host-SameButProbes :
      (host : Option Host)
      → SameButProbes db (queue_for_host env host_id port protocol bind_address host db).1
  unfolding queue_for_host
  queue_for_host-SameButProbes none = SameButProbes-refl db
  queue_for_host-SameButProbes (some host) =
      elim (Bool-cases (is_healthy (host_health env.settings host env.now))) [
        | inl up ↦ rw up (
            queue_unless_open-SameButProbes (
              still_open env.now
                (find_latest_for_binding host_id port protocol bind_address db.probes)))
        | inr down ↦ rw down (SameButProbes-refl db)
      ]

  -- Queuing a probe writes to no other table.
  pub queue_probe-SameButProbes :
      SameButProbes db (queue_probe env host_id port protocol bind_address db).1
  unfolding queue_probe
  queue_probe-SameButProbes = queue_for_host-SameButProbes (host_by_id host_id db.hosts)

  -- An appended probe counts only for the host and the moment for which it is active.
  count-append :
      (h now : ℕ) (p : HostProbe) (probes : List HostProbe)
      → count_active_for_host h now (probes ++ p ∷ [])
        ≡ count_active_for_host h now probes + (if is_active_for h now p then 1 else 0)
  count-append h now p probes = ground (
    arith,
    select-append (is_active_for h now) probes (p ∷ []),
    length-append (select (is_active_for h now) probes) (select (is_active_for h now) (p ∷ [])),
  )

  queue_unless_open_bound :
      (o : Option HostProbe)
      → IsBounded env db.probes
      → IsBounded env (queue_unless_open env host_id port protocol bind_address o db).1.probes
  unfolding queue_unless_open
  queue_unless_open_bound (some p) b h = b h
  queue_unless_open_bound none b h = ground (
    arith,
    b h,
    b host_id,
    count-append h env.now
        (new_probe env (env.uuid (length db.probes)) host_id port protocol bind_address) db.probes,
  )

  -- If no host has more open and unexpired probes than the bound of the settings, then none has after
  -- a probe is queued.
  pub queue_probe-IsBounded :
      IsBounded env db.probes
      → IsBounded env (queue_probe env host_id port protocol bind_address db).1.probes
  unfolding queue_probe queue_for_host
  queue_probe-IsBounded b h = elim (Option-cases (host_by_id host_id db.hosts)) [
    | inl gone ↦ rw (gone, queue_for_host) (b h)
    | inr (host, found) ↦ elim (Bool-cases (is_healthy (host_health env.settings host env.now))) [
      | inl up ↦
          rw (found, queue_for_host, up)
            (queue_unless_open_bound
              (still_open env.now
                (find_latest_for_binding host_id port protocol bind_address db.probes))
              b h)
      | inr down ↦ rw (found, queue_for_host, down) (b h)
    ]
  ]

module _ (env : Env) (host_id port : ℕ) (protocol : Protocol) (bind_address : String)
    (db : Db) where
  -- A probe is queued only for a host that is known.
  pub queue_probe-known_host :
      {probe : HostProbe}
      → (queue_probe env host_id port protocol bind_address db).0 ≡ some probe
      → (host : Host) × (host_by_id host_id db.hosts ≡ some host)
        × (is_healthy (host_health env.settings host env.now) ≡ true)
  unfolding queue_probe queue_for_host
  queue_probe-known_host h = elim (Option-cases (host_by_id host_id db.hosts)) [
    | inl gone ↦ absurd (cc (gone, h))
    | inr (host, found) ↦ (host, found, ground arith)
  ]
