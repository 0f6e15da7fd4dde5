-- ===== src/Central/Ingestion/Rows.antt =====
-- At most one row for each binding: what the constraint `uq_current_port_binding` asks of the table.
use mathlib.Core.Path.{subst}
use port_forge.Prelude.{
  ℕ, ◌≤◌, ◌+◌, String, Option, none, some, List, [], ◌∷◌, ◌++◌, Bool, true, false, not, ◌≡◌, refl,
  sym, ap, ◌∙◌, arith, find?, any, select, length, length-append, select-append,
  length-select-select-le, is_some, update_first, ◌⊎◌, Bool-cases, inl, inr, if◌then◌else◌,
}
use port_forge.Prelude.Result.{ok}
use port_forge.Central.Vocabulary.{Protocol}
use port_forge.Central.Tables.{Observation, CurrentPort, Db}
use port_forge.Central.Canonical.{same_key, canonicalize_observations}
use port_forge.Central.Ingestion.{
  Snapshot, IngestionResult, Progress, is_row, is_row_for, fresh_row, refresh_row, refresh_existing,
  appear, disappear, current_row, list_current_for_host, observe_against, observe_each,
  remove_absent, diffed, start, committed, ingest_snapshot,
}
use port_forge.Central.Ingestion.Lookup.{
  is_at, is_row-refresh_row, is_row-fresh_row, current_row-find?,
}
use port_forge.Central.Ingestion.Mirror.{row_at, step_apart}
use port_forge.Central.Ingestion.Snapshots.{ingest_snapshot-committed, is_at_le_one}

-- The rows of one binding are at most one.
unfoldable pub HasUniqueRows : Db → Type 0
HasUniqueRows db =
    (h port : ℕ) (protocol : Protocol) (address : String)
    → length (select (is_row h port protocol address) db.ports) ≤ 1

length-select-update_first {ℓ} :
    {A : Type ℓ} (p q : A → Bool) (f : A → A) (xs : List A)
    → ((x : A) → p (f x) ≡ p x)
    → length (select p (update_first q f xs)) ≡ length (select p xs)
length-select-update_first p q f [] h = refl
length-select-update_first p q f (x ∷ xs) h =
    ground (arith, h x, length-select-update_first p q f xs h)

length-select-missing {ℓ} :
    {A : Type ℓ} (p : A → Bool) (xs : List A)
    → is_some (find? p xs) ≡ false
    → length (select p xs) ≡ 0
length-select-missing p [] h = refl
length-select-missing p (x ∷ xs) h = ground (arith, h, length-select-missing p xs)

module _ (h port : ℕ) (protocol : Protocol) (address : String) (s : Snapshot) where
  count : Progress → ℕ
  count p = length (select (is_row h port protocol address) p.ports)

  count-append :
      (o : Observation) (rows : List CurrentPort)
      → length (select (is_row h port protocol address) (rows ++ fresh_row s o ∷ []))
        ≡ length (select (is_row h port protocol address) rows)
          + (if is_at h port protocol address s.host_id o then 1 else 0)
  count-append o rows =
      ap length (select-append (is_row h port protocol address) rows (fresh_row s o ∷ []))
      ∙ length-append (select (is_row h port protocol address) rows)
          (select (is_row h port protocol address) (fresh_row s o ∷ []))
      ∙ ground (arith, is_row-fresh_row h port protocol address s o)

  count-here :
      (b : Bool) (o : Observation) (current : Option CurrentPort) (p : Progress)
      → is_some current ≡ is_some (row_at h port protocol address p.ports)
      → count p ≤ 1
      → count (observe_against s b o current p) ≤ 1
  unfolding count observe_against appear refresh_existing
  count-here b o none p e c = ground (
    arith,
    count-append o p.ports,
    length-select-missing (is_row h port protocol address) p.ports (sym e),
    Bool-cases (is_at h port protocol address s.host_id o),
  )
  count-here b o (some existing) p e c = omega (
    arith,
    c,
    length-select-update_first (is_row h port protocol address) (is_row_for s.host_id o)
        (refresh_row s o) p.ports (is_row-refresh_row h port protocol address s o),
  )

  count-apart :
      (b : Bool) (o : Observation) (current : Option CurrentPort) (p : Progress)
      → is_at h port protocol address s.host_id o ≡ false
      → (row_at h port protocol address (observe_against s b o current p).ports
          ≡ row_at h port protocol address p.ports)
        × (count (observe_against s b o current p) ≡ count p)
  unfolding count observe_against appear refresh_existing
  count-apart b o none p m =
      (step_apart h port protocol address s b o none p m, ground (arith, m, count-append o p.ports))
  count-apart b o (some existing) p m = (
    step_apart h port protocol address s b o (some existing) p m,
    length-select-update_first (is_row h port protocol address) (is_row_for s.host_id o)
        (refresh_row s o) p.ports (is_row-refresh_row h port protocol address s o),
  )

  count-observe_each :
      (b : Bool) (rows : List CurrentPort) (os : List Observation) (p : Progress)
      → length (select (is_at h port protocol address s.host_id) os) ≤ 1
      → ((o : Observation)
          → is_at h port protocol address s.host_id o ≡ true
          → (is_some (current_row o rows) ≡ is_some (row_at h port protocol address p.ports))
            ⊎ (length (select (is_at h port protocol address s.host_id) os) ≡ 0))
      → count p ≤ 1
      → count (observe_each s b rows os p) ≤ 1
  unfolding observe_each
  count-observe_each b rows [] p l k c = c
  count-observe_each b rows (o ∷ os) p l k c =
      elim (Bool-cases (is_at h port protocol address s.host_id o)) [
        | inl m ↦
            count-observe_each b rows os (observe_against s b o (current_row o rows) p)
              (ground (arith, l)) (λ o' m'. inr (ground (arith, l, m)))
              (elim (k o m) [
                | inl e ↦ count-here b o (current_row o rows) p e c
                | inr z ↦ absurd (ground (arith, z, m))
              ])
        | inr m ↦
            let a = count-apart b o (current_row o rows) p m in
            count-observe_each b rows os (observe_against s b o (current_row o rows) p)
              (ground (arith, l, m))
              (λ o' m'. elim (k o' m') [
                | inl e ↦ inl (e ∙ sym (ap is_some a.0))
                | inr z ↦ inr (ground (arith, z, m))
              ])
              (ground (arith, a.1, c))
      ]

  count-remove_absent :
      (canonical : List Observation) (rows : List CurrentPort) (p : Progress)
      → count (remove_absent s canonical rows p) ≤ count p
  unfolding count remove_absent disappear
  count-remove_absent canonical [] p = omega arith
  count-remove_absent canonical (r ∷ rows) p = ground (
    arith,
    Bool-cases (any (same_key r.observed) canonical),
    count-remove_absent canonical rows p,
    count-remove_absent canonical rows (disappear s r p),
    length-select-select-le (is_row h port protocol address)
        (λ x. not (is_row_for s.host_id r.observed x)) p.ports,
  )

-- An accepted snapshot leaves at most one row for each host and binding, if there was at most one.
pub ingest_snapshot-HasUniqueRows :
    (max_batch_size : ℕ) (s : Snapshot) (db : Db) {r : IngestionResult} {db' : Db}
    → ingest_snapshot max_batch_size s db ≡ ok (r, db')
    → HasUniqueRows db
    → HasUniqueRows db'
unfolding HasUniqueRows diffed committed start count
ingest_snapshot-HasUniqueRows max_batch_size s db {r} {db'} accepted unique =
    elim (ingest_snapshot-committed max_batch_size s db accepted) [
      | inl same ↦ subst (λ d. HasUniqueRows d) same unique
      | inr new ↦ subst (λ d. HasUniqueRows d) new.1 (loops new.0)
    ]
  where
    loops : (b : Bool) → HasUniqueRows (committed s (diffed s b db) db)
    loops b h port protocol address =
        let rows = list_current_for_host s.host_id db.ports in
        let canonical = (canonicalize_observations s.observations).0 in
        omega (
          arith,
          count-remove_absent h port protocol address s canonical rows
              (observe_each s b rows canonical (start db)),
          count-observe_each h port protocol address s b rows canonical (start db)
              (is_at_le_one s b db h port protocol address)
              (λ o m.
                inl (ap is_some (current_row-find? h port protocol address s.host_id o db.ports m)))
              (unique h port protocol address),
        )
