-- ===== src/Agent/Workflow/Compensation.antt =====
-- What a workflow that fails at its configuration leaves behind.
use mathlib.Core.Path.{subst}
use port_forge.Prelude.{
  String, Option, none, some, List, [], ◌∷◌, ◌++◌, ◌||◌, ◌⊎◌, ◌↔◌, inl, inr, any, any-append, Bool,
  true, false, not, ◌&&◌, ◌≡◌, refl, sym, ap, ◌∙◌, arith, str_eq, if◌then◌else◌,
}
use port_forge.Prelude.Result.{Result, ok, err}
use port_forge.Agent.Mutations.{
  MutationStatus, ConfigError, Failure, raised, os_error, PlannedFile, MutationRecord, Files, Store,
  World, MutationOutcome, apply_mutation,
}
use port_forge.Agent.Mutations.Restore.{apply_mutation_all_or_nothing}
use port_forge.Agent.Workflow.{
  Manifest, Grant, granted, Client, WorkflowRecord, WorkflowStatus, WorkflowError, config_failed,
  compensation_failed, escaped_os_error, state_inconsistent, CompensationAction, config_not_applied,
  allocation_released, allocation_release_failed, allocation_preserved, is_alarm, singly, save_then,
  end_with, released_after, failed_record, Site, Planner, persist_plan, roll_back_applied,
  compensate_config, compensate_allocation, base_record, Ending, compensated, after_apply,
  configure, with_allocation, with_reply, has_no_allocation, allocate_and_configure, is_finished,
  idempotency_conflict, resume, apply_workflow,
}

module _ {Remote : Type 0} (c : Client Remote) where
  abbrev settled : Grant → Bool → Remote → Remote
  settled g created remote =
      if created then (c.release_allocation g.allocation_id remote).1 else remote

  -- The allocation was to be released, and the server did not say that it was.
  abbrev is_stuck : Grant → Bool → Remote → Bool
  is_stuck g created remote = created && not (c.release_allocation g.allocation_id remote).0

  -- The files are these, and the allocation has been given back if it was new.
  abbrev IsLeft : Files → Grant → Bool → Remote → Site Remote → Type 0
  IsLeft files g created remote site =
      ((path : String) → site.store.files path ≡ files path)
      × (site.remote ≡ settled g created remote)

  IsLeftBy : Files → Grant → Bool → Remote → Ending c → Type 0
  IsLeftBy files g created remote (err (config_failed x), site) =
      IsLeft files g created remote site × (is_stuck g created remote ≡ false)
  IsLeftBy files g created remote (err (compensation_failed x), site) =
      IsLeft files g created remote site × (is_stuck g created remote ≡ true)
  IsLeftBy files g created remote (_, site) = Unit

  settled-remote :
      (g : Grant) (created : Bool) (remote : Remote)
      → (compensate_allocation c g.allocation_id created remote).1 ≡ settled g created remote
  unfolding compensate_allocation
  settled-remote g true remote = refl
  settled-remote g false remote = refl

  alarm-stuck :
      (g : Grant) (created : Bool) (remote : Remote) (done : List CompensationAction)
      → any (is_alarm c) done ≡ false
      → any (is_alarm c) (done ++ (compensate_allocation c g.allocation_id created remote).0 ∷ [])
        ≡ is_stuck g created remote
  unfolding compensate_allocation
  alarm-stuck g true remote done n =
      any-append (is_alarm c) done ((compensate_allocation c g.allocation_id true remote).0 ∷ [])
      ∙ for_answer (c.release_allocation g.allocation_id remote).0
    where
      for_answer :
          (released : Bool)
          → (any (is_alarm c) done
              || any
                  (is_alarm c)
                  ((if released then allocation_released else allocation_release_failed) ∷ []))
            ≡ not released
      for_answer true = ground (arith, n)
      for_answer false = ground (arith, n)
  alarm-stuck g false remote done n =
      any-append (is_alarm c) done (allocation_preserved ∷ []) ∙ ground (arith, n)

  released_after-IsLeftBy :
      (m : Manifest) (g : Grant) (created : Bool) (mutation_id : Option String) (e : ConfigError)
      (files : Files) (site : Site Remote) (done : List CompensationAction)
      → any (is_alarm c) done ≡ false
      → ((path : String) → site.store.files path ≡ files path)
      → IsLeftBy files g created site.remote
          (released_after c m g created mutation_id e site (some done))
  unfolding released_after end_with save_then base_record IsLeftBy
  released_after-IsLeftBy m g created mutation_id e files site done n k =
      for_tests (site.is_saveable WorkflowStatus.failed)
        (any (is_alarm c)
          (done ++ (compensate_allocation c g.allocation_id created site.remote).0 ∷ []))
        (alarm-stuck g created site.remote done n)
    where
      allocation : CompensationAction × Remote
      allocation = compensate_allocation c g.allocation_id created site.remote

      given_back : Site Remote
      given_back = record site { remote = allocation.1 }

      ended : Bool → Bool → Ending c
      ended is_saved alarm =
          if is_saved
          then (
            err (if alarm then compensation_failed e else config_failed e),
            record given_back {
              saved = some (record (base_record c m g created WorkflowStatus.failed) {
                mutation_id = mutation_id;
                compensation = done ++ allocation.0 ∷ [];
              });
            },
          )
          else (err escaped_os_error, given_back)

      for_tests :
          (is_saved alarm : Bool)
          → alarm ≡ is_stuck g created site.remote
          → IsLeftBy files g created site.remote (ended is_saved alarm)
      for_tests true true h = ((k, settled-remote g created site.remote), sym h)
      for_tests true false h = ((k, settled-remote g created site.remote), sym h)
      for_tests false alarm h = tt

  -- A change that was not applied is not rolled back.
  compensate_config-kept :
      (w : World) (store : Store) (mutation_id : String) (r : MutationRecord)
      → store.saved ≡ some r
      → r.status ≡ MutationStatus.planned
      → compensate_config w store (some mutation_id) store.saved
        ≡ (some (config_not_applied ∷ []), store)
  unfolding compensate_config roll_back_applied
  compensate_config-kept w store mutation_id r e p =
      ap (compensate_config w store (some mutation_id)) e
      ∙ ap (λ t. let done = roll_back_applied w store t in (singly done.0, done.1)) p

  after_apply-IsLeftBy :
      (w : World) (m : Manifest) (g : Grant) (created : Bool) (mutation_id : String)
      (site : Site Remote) (r : MutationRecord) (o : MutationOutcome)
      → site.store.saved ≡ some r
      → r.status ≡ MutationStatus.planned
      → apply_mutation w site.store ≡ o
      → IsLeftBy site.store.files g created site.remote
          (after_apply c w m g created mutation_id site o)
  unfolding after_apply compensated IsLeftBy end_with save_then base_record
  after_apply-IsLeftBy w m g created mutation_id site r (ok r', store) s p h =
      for_test (site.is_saveable WorkflowStatus.applied)
    where
      new : WorkflowRecord
      new = record (base_record c m g created WorkflowStatus.applied) {
        mutation_id = some mutation_id;
        config_applied = true;
      }

      ended : Bool → Ending c
      ended b =
          if b
          then (ok new, record site { store = store; saved = some new })
          else (err escaped_os_error, record site { store = store })

      for_test : (b : Bool) → IsLeftBy site.store.files g created site.remote (ended b)
      for_test true = tt
      for_test false = tt
  after_apply-IsLeftBy w m g created mutation_id site r (err os_error, store) s p h = tt
  after_apply-IsLeftBy w m g created mutation_id site r (err (raised e), store) s p h =
      let k =
        apply_mutation_all_or_nothing w site.store {e = raised e} {store' = store} h
          (inl (λ x. absurd (cc x))) in
      subst
        (λ config. IsLeftBy site.store.files g created site.remote (
          released_after c m g created (some mutation_id) e (record site { store = config.1 })
            config.0))
        (sym (compensate_config-kept w store mutation_id r (k.1 ∙ s) p))
        (released_after-IsLeftBy m g created (some mutation_id) e site.store.files
          (record site { store = store }) (config_not_applied ∷ []) refl k.0)

  configure-IsLeftBy :
      (w : World) (m : Manifest) (g : Grant) (created : Bool) (mutation_id : String)
      (site : Site Remote) (files : Result Failure (List PlannedFile))
      → IsLeftBy site.store.files g created site.remote
          (configure c w m g created mutation_id site files)
  unfolding configure compensated compensate_config IsLeftBy persist_plan
  configure-IsLeftBy w m g created mutation_id site (err os_error) = tt
  configure-IsLeftBy w m g created mutation_id site (err (raised e)) =
      released_after-IsLeftBy m g created none e site.store.files site [] refl (λ path. refl)
  configure-IsLeftBy w m g created mutation_id site (ok files) =
      for_test (w.is_record_writable MutationStatus.planned)
    where
      store : Store
      store = persist_plan mutation_id files site.store

      tried : Ending c
      tried =
          after_apply c w m g created mutation_id (record site { store = store })
            (apply_mutation w store)

      for_test :
          (b : Bool)
          → IsLeftBy site.store.files g created site.remote
              (if b then tried else (err escaped_os_error, site))
      for_test true =
          after_apply-IsLeftBy w m g created mutation_id (record site { store = store })
            (record { mutation_id = mutation_id; status = MutationStatus.planned; files = files })
            (apply_mutation w store) refl refl refl
      for_test false = tt

  with_allocation-IsLeftBy :
      (w : World) (plan : Planner) (m : Manifest) (mutation_id : String) (created : Bool)
      (g : Grant) (site : Site Remote)
      → IsLeftBy site.store.files g created site.remote
          (with_allocation c w plan m mutation_id created g site)
  unfolding with_allocation IsLeftBy save_then base_record
  with_allocation-IsLeftBy w plan m mutation_id created g site =
      for_tests (site.is_saveable WorkflowStatus.allocated) m.has_config
    where
      new : WorkflowRecord
      new = base_record c m g created WorkflowStatus.allocated

      tried : Ending c
      tried =
          configure c w m g created mutation_id (record site { saved = some new })
            (plan site.store.files g)

      for_tests :
          (is_saved b : Bool)
          → IsLeftBy site.store.files g created site.remote (
              if is_saved
              then if b then tried else (ok new, record site { saved = some new })
              else (err escaped_os_error, site))
      for_tests true true =
          configure-IsLeftBy w m g created mutation_id (record site { saved = some new })
            (plan site.store.files g)
      for_tests true false = tt
      for_tests false b = tt

  -- The manifest is that of the saved record, if there is one.
  abbrev pub is_same_request : Manifest → Option WorkflowRecord → Bool
  is_same_request m none = true
  is_same_request m (some r) = str_eq r.manifest_hash m.manifest_hash

  attempt-IsLeftBy :
      (w : World) (plan : Planner) (m : Manifest) (mutation_id : String) (site : Site Remote)
      (g : Grant)
      → (c.create_allocation site.remote).0 ≡ granted g
      → g.is_active ≡ true
      → IsLeftBy site.store.files g
          (has_no_allocation c site.saved && not g.idempotent_replay)
          (c.create_allocation site.remote).1
          (allocate_and_configure c w plan m mutation_id site)
  unfolding allocate_and_configure with_reply
  attempt-IsLeftBy w plan m mutation_id site g e a =
      let remote = (c.create_allocation site.remote).1 in
      let next : Site Remote = record site { remote = remote } in
      let created = has_no_allocation c site.saved && not g.idempotent_replay in
      let tried = with_allocation c w plan m mutation_id created g next in
      let inactive =
        end_with c (err state_inconsistent) (failed_record c m (some g.allocation_id)) next in
      let same : tried ≡ allocate_and_configure c w plan m mutation_id site = sym (
        ap (with_reply c w plan m mutation_id (has_no_allocation c site.saved) next) e
        ∙ ap (λ b. if b then tried else inactive) a) in
      subst (λ o. IsLeftBy site.store.files g created remote o) same
        (with_allocation-IsLeftBy w plan m mutation_id created g next)

-- Where the server grants an active allocation and the request is that of the saved record, if any,
-- and the workflow answers with an error of the configuration step, as it is or as a failed
-- compensation: every file of the project is as it was, and the server has been asked to release the
-- allocation exactly if that was new, neither replayed by the server nor on record from before. The
-- error is answered as it is exactly if the allocation was not new or the server said that it was
-- released, and otherwise as a failed compensation.
pub apply_workflow_compensates :
    {Remote : Type 0} (c : Client Remote) (w : World) (plan : Planner) (m : Manifest)
    (mutation_id : String) (site : Site Remote) (g : Grant) (x : ConfigError) {e : WorkflowError}
    {site' : Site Remote}
    → (c.create_allocation site.remote).0 ≡ granted g
    → g.is_active ≡ true
    → is_same_request c m site.saved ≡ true
    → apply_workflow c w plan m mutation_id site ≡ (err e, site')
    → (e ≡ config_failed x) ⊎ (e ≡ compensation_failed x)
    → let created = has_no_allocation c site.saved && not g.idempotent_replay in
      let remote = (c.create_allocation site.remote).1 in
      let released = c.release_allocation g.allocation_id remote in
      ((path : String) → site'.store.files path ≡ site.store.files path)
      × (site'.remote ≡ (if created then released.1 else remote))
      × ((e ≡ config_failed x) ↔ ((created && not released.0) ≡ false))
      × ((e ≡ compensation_failed x) ↔ ((created && not released.0) ≡ true))
unfolding apply_workflow resume IsLeftBy
apply_workflow_compensates c w plan m mutation_id site g x {e} {site'} granted_g a same h failed_e =
    let left = subst (LeftBy site.saved) h (for_saved site.saved same) in
    elim failed_e [
      | inl k ↦
          let l = subst (λ y. LeftBy site.saved (err y, site')) k left in
          (
            l.0.0,
            l.0.1,
            (λ _. l.1, λ _. k),
            (λ k'. absurd (cc (sym k ∙ k')), λ t. absurd (cc (sym l.1 ∙ t))),
          )
      | inr k ↦
          let l = subst (λ y. LeftBy site.saved (err y, site')) k left in
          (
            l.0.0,
            l.0.1,
            (λ k'. absurd (cc (sym k ∙ k')), λ t. absurd (cc (sym l.1 ∙ t))),
            (λ _. l.1, λ _. k),
          )
    ]
  where
    LeftBy : Option WorkflowRecord → Ending c → Type 0
    LeftBy o ending =
        IsLeftBy c site.store.files g (has_no_allocation c site.saved && not g.idempotent_replay)
          (c.create_allocation site.remote).1 ending

    chosen : Bool → Bool → WorkflowRecord → Ending c
    chosen b y r =
        if b
        then if y then (ok r, site) else allocate_and_configure c w plan m mutation_id site
        else (err idempotency_conflict, site)

    for_tests : (r : WorkflowRecord) (b y : Bool) → b ≡ true → LeftBy site.saved (chosen b y r)
    for_tests r true true s = tt
    for_tests r true false s = attempt-IsLeftBy c w plan m mutation_id site g granted_g a
    for_tests r false y s = absurd (cc s)

    for_saved :
        (o : Option WorkflowRecord)
        → is_same_request c m o ≡ true
        → LeftBy site.saved (resume c w plan m mutation_id site o)
    for_saved none s = attempt-IsLeftBy c w plan m mutation_id site g granted_g a
    for_saved (some r) s =
        for_tests r (str_eq r.manifest_hash m.manifest_hash) (is_finished c m r.status) s
