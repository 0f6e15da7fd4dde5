-- ===== src/Central/Search/Resolve.antt =====
-- The refinement of a candidate by probe evidence: what it may return, what it may write, and when
-- it may still return a port that a fresh probe found occupied.
use port_forge.Prelude.{
  ℕ, zero, suc, Option, some, List, [], ◌∷◌, ◌≡◌, refl, inl, inr, Option-cases,
}
use port_forge.Central.Vocabulary.{Protocol}
use port_forge.Central.Tables.{Db, Env}
use port_forge.Central.Probes.{
  not_remote_capable, verified_free, verified_occupied, expired, unavailable, any_address,
  get_probe_evidence, BindProbe,
}
use port_forge.Central.Probes.Queue.{SameButProbes, SameButProbes-refl, queue_probe-SameButProbes}
use port_forge.Central.Search.{
  CandidateSearchResult, resolve_loop, by_evidence, Resolved, resolve_with_probe_awareness,
}

-- What holds of the port of every candidate result holds of the port that is returned; and only
-- the probes are written.
pub record IsSound (P : Option ℕ → Type 0) (db : Db) (r : Resolved) : Type 0 where
  pub port : P r.0.port
  pub frame : SameButProbes db r.2

module _ (env : Env) (host_id : ℕ) (protocol : Protocol) (P : Option ℕ → Type 0) (db : Db) where
  by_evidence-IsSound :
      (port : ℕ) (result : CandidateSearchResult) (again : Resolved) (b : BindProbe)
      → P result.port
      → IsSound P db again
      → IsSound P db (by_evidence env host_id protocol port result db again b)
  unfolding by_evidence
  by_evidence-IsSound port result again verified_occupied h s = s
  by_evidence-IsSound port result again verified_free h s = record {
    port = h;
    frame = SameButProbes-refl db;
  }
  by_evidence-IsSound port result again _ h s = record {
    port = h;
    frame = queue_probe-SameButProbes env host_id port protocol any_address db;
  }

  resolve_loop-IsSound :
      (refine : List ℕ → CandidateSearchResult) (attempts : ℕ) (exclude : List ℕ)
      (result : CandidateSearchResult)
      → P result.port
      → ((exclude : List ℕ) → P (refine exclude).port)
      → IsSound P db (resolve_loop env host_id protocol refine attempts exclude result db)
  unfolding resolve_loop
  resolve_loop-IsSound refine zero exclude result h r = record {
    port = h;
    frame = SameButProbes-refl db;
  }
  resolve_loop-IsSound refine (suc attempts) exclude result h r = elim (Option-cases result.port) [
    | inl e ↦ rw (e, resolve_loop) (record { port = h; frame = SameButProbes-refl db })
    | inr (port, e) ↦
        rw (e, resolve_loop)
          (by_evidence-IsSound port result
            (resolve_loop env host_id protocol refine attempts (port ∷ exclude)
              (refine (port ∷ exclude)) db)
            (get_probe_evidence env host_id port protocol any_address db) h
            (resolve_loop-IsSound refine attempts (port ∷ exclude) (refine (port ∷ exclude))
              (r (port ∷ exclude)) r))
  ]

module _ (env : Env) (host_id : ℕ) (protocol : Protocol) (db : Db) where
  -- The label `verified_free` stands only on a port for which there is such evidence.
  abbrev IsHonest : Resolved → Type 0
  IsHonest r =
      r.1 ≡ verified_free
      → (p : ℕ) × (r.0.port ≡ some p)
        × (get_probe_evidence env host_id p protocol any_address db ≡ verified_free)

  by_evidence-IsHonest :
      (port : ℕ) (result : CandidateSearchResult) (again : Resolved) (b : BindProbe)
      → result.port ≡ some port
      → get_probe_evidence env host_id port protocol any_address db ≡ b
      → IsHonest again
      → IsHonest (by_evidence env host_id protocol port result db again b)
  unfolding by_evidence
  by_evidence-IsHonest port result again verified_occupied h e s = s
  by_evidence-IsHonest port result again verified_free h e s = λ v. (port, h, e)
  by_evidence-IsHonest port result again not_remote_capable h e s = λ v. cc
  by_evidence-IsHonest port result again expired h e s = λ v. cc
  by_evidence-IsHonest port result again unavailable h e s = λ v. cc

  resolve_loop-IsHonest :
      (refine : List ℕ → CandidateSearchResult) (attempts : ℕ) (exclude : List ℕ)
      (result : CandidateSearchResult)
      → IsHonest (resolve_loop env host_id protocol refine attempts exclude result db)
  unfolding resolve_loop
  resolve_loop-IsHonest refine zero exclude result = λ v. cc
  resolve_loop-IsHonest refine (suc attempts) exclude result = elim (Option-cases result.port) [
    | inl e ↦ rw (e, resolve_loop) (λ v. cc)
    | inr (port, e) ↦
        rw (e, resolve_loop)
          (by_evidence-IsHonest port result
            (resolve_loop env host_id protocol refine attempts (port ∷ exclude)
              (refine (port ∷ exclude)) db)
            (get_probe_evidence env host_id port protocol any_address db) e refl
            (resolve_loop-IsHonest refine attempts (port ∷ exclude) (refine (port ∷ exclude))))
  ]

module _ (env : Env) (host_id : ℕ) (protocol : Protocol) (initial : CandidateSearchResult)
    (refine : List ℕ → CandidateSearchResult) (db : Db) where
  pub resolve-IsSound :
      (P : Option ℕ → Type 0)
      → P initial.port
      → ((exclude : List ℕ) → P (refine exclude).port)
      → IsSound P db (resolve_with_probe_awareness env host_id protocol initial refine db)
  unfolding resolve_with_probe_awareness
  resolve-IsSound P h r = resolve_loop-IsSound env host_id protocol P db refine 5 [] initial h r

  -- A candidate that is labelled `verified_free` has a port, and that port has probe evidence that it
  -- is free, whatever search proposes the candidates.
  pub resolve-IsHonest :
      (resolve_with_probe_awareness env host_id protocol initial refine db).1 ≡ verified_free
      → (p : ℕ) × ((resolve_with_probe_awareness env host_id protocol initial refine db).0.port
          ≡ some p)
        × (get_probe_evidence env host_id p protocol any_address db ≡ verified_free)
  unfolding resolve_with_probe_awareness
  resolve-IsHonest = resolve_loop-IsHonest env host_id protocol db refine 5 [] initial
