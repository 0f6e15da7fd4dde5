-- ===== src/Central/Probes/Evidence.antt =====
-- Probe results: how they are recorded, and what evidence they give.
use port_forge.Prelude.{
  ℕ, ◌≤◌, String, Option, none, some, List, [], ◌∷◌, ◌≡◌, ◌↔◌, refl, inl, inr, arith, Option-cases,
  Bool, true, false, find?, update, ◌==◌, ◌⊎◌,
}
use port_forge.Prelude.Result.{ok}
use port_forge.Central.Vocabulary.{completed}
use port_forge.Central.Tables.{Db, Env, HostProbe}
use port_forge.Central.Probes.{
  classify_bind_probe, verified_free, verified_occupied, not_remote_capable, submit_result,
  submit_found, with_result, is_open,
}

-- A probe counts as evidence of a free port exactly if it is completed, has not passed its expiry
-- and found the port available; as evidence of an occupied one exactly if it is completed, has not
-- passed its expiry and did not find it available. A missing, open, failed or expired probe is
-- evidence of neither.
pub classify_bind_probe_iff :
    (p : HostProbe) (now : ℕ)
    → ((classify_bind_probe (some p) now ≡ verified_free)
        ↔ ((p.status ≡ completed) × (now ≤ p.expires_at) × (p.result_available ≡ some true)))
      × ((classify_bind_probe (some p) now ≡ verified_occupied) ↔ (
          (p.status ≡ completed)
          × (now ≤ p.expires_at)
          × ((p.result_available ≡ some false) ⊎ (p.result_available ≡ none))))
      × (classify_bind_probe none now ≡ not_remote_capable)
unfolding classify_bind_probe
classify_bind_probe_iff p now = ground arith

find?-id :
    (id : ℕ) (probes : List HostProbe) {p : HostProbe}
    → find? (λ q. q.id == id) probes ≡ some p
    → p.id ≡ id
find?-id id [] h = cc
find?-id id (x ∷ xs) {p} h = ground (arith, find?-id id xs {p = p})

-- After an update of the rows with an id, the row found by that id is the updated one.
find?-update_id :
    (f : HostProbe → HostProbe) (id : ℕ) (probes : List HostProbe) {p : HostProbe}
    → ((q : HostProbe) → (f q).id ≡ q.id)
    → find? (λ q. q.id == id) probes ≡ some p
    → find? (λ q. q.id == id) (update (λ q. q.id == id) f probes) ≡ some (f p)
find?-update_id f id [] same h = cc
find?-update_id f id (x ∷ xs) {p} same h =
    ground (arith, same x, find?-update_id f id xs {p = p} same)

with_result-id :
    (now : ℕ) (available : Option Bool) (reason : Option String) (q : HostProbe)
    → (with_result now available reason q).id ≡ q.id
with_result-id now none reason q = refl
with_result-id now (some a) reason q = refl

with_result-closed :
    (now : ℕ) (available : Option Bool) (reason : Option String) (q : HostProbe)
    → (is_open (with_result now available reason q).status ≡ false)
      × ((with_result now available reason q).host_id ≡ q.host_id)
with_result-closed now none reason q = (refl, refl)
with_result-closed now (some a) reason q = (refl, refl)

-- An accepted submission: the probe is the host's, it is closed afterwards, and it is found so.
submit_result_closed :
    (env : Env) (host_id id : ℕ) (available : Option Bool) (reason : Option String) (db : Db)
    {p : HostProbe} {db' : Db}
    → submit_result env host_id id available reason db ≡ ok (p, db')
    → (p.host_id ≡ host_id)
      × (is_open p.status ≡ false)
      × (find? (λ q. q.id == id) db'.probes ≡ some p)
unfolding submit_result submit_found
submit_result_closed env host_id id available reason db h =
    elim (Option-cases (find? (λ q. q.id == id) db.probes)) [
      | inl gone ↦ absurd (cc (gone, h))
      | inr (q, found) ↦ ground (
        arith,
        find?-id id db.probes {p = q} found,
        with_result-closed env.now available reason q,
        find?-update_id (with_result env.now available reason) id db.probes {p = q}
            (with_result-id env.now available reason) found,
      )
    ]

-- Once a result is accepted, a second submission for that probe by its host, whatever it says,
-- returns what the first recorded and changes nothing.
pub submit_result_idempotent :
    (env env' : Env) (host_id id : ℕ) (available available' : Option Bool)
    (reason reason' : Option String) (db : Db) {p : HostProbe} {db' : Db}
    → submit_result env host_id id available reason db ≡ ok (p, db')
    → submit_result env' host_id id available' reason' db' ≡ ok (p, db')
unfolding submit_result submit_found
submit_result_idempotent env env' host_id id available available' reason reason' db h =
    ground (arith, submit_result_closed env host_id id available reason db h)
