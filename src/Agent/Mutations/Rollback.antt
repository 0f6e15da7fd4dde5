-- ===== src/Agent/Mutations/Rollback.antt =====
-- A rollback after an application.
use mathlib.Core.Path.{subst}
use port_forge.Prelude.{
  String, Option, none, some, List, [], Bool, true, false, ◌≡◌, refl, sym, ap, ◌∙◌, arith, All,
  Bool-cases, inl, inr, if◌then◌else◌,
}
use port_forge.Prelude.Result.{Result, ok, err}
use port_forge.Agent.Mutations.{
  planned, applied, rolled_back, ConfigError, MutationRecord, Files, Store, World, check_hashes,
  changed_since_plan, changed_since_apply, Prepared, prepare, back_up_all, Attempt, write_all,
  Failure, os_error, MutationOutcome, apply_backed_up, apply_result, apply_prepared, apply_checked,
  apply_unless_applied, apply_saved, apply_mutation, restore_backups, rollback_files,
  rollback_checked, rollback_in, rollback_saved, rollback_mutation,
}
use port_forge.Agent.Mutations.Restore.{
  is_target, IsOriginal, restore-at, restore_each, prepare-IsOriginal,
}
use port_forge.Agent.Mutations.Traces.{
  HasNoBackup, IsBackedUp, IsResolved, are_apart, back_up_all-ok, back_up_each-IsBackedUp,
  check_hashes-ok, files_of, hashed_all, prepare-files, restore_backups-restore, write_all-ok,
  write_each, write_each-IsWritten, write_each-other,
}

module _ (w : World) where
  -- A rollback that puts every file back.
  abbrev pub IsUndoneIn : Store → Store → Type 0
  IsUndoneIn store after =
      (r : MutationRecord) × (end : Store) × (rollback_mutation w after ≡ (ok r, end))
      × ((path : String) → end.files path ≡ store.files path)

  abbrev IsUndone : Store → Result Failure MutationRecord → Store → Type 0
  IsUndone store (ok r) after = IsUndoneIn store after
  IsUndone store (err e) after = Unit

  -- What the rollback of an applied record makes of the store.
  rolled-IsUndone :
      (store after : Store) (new : MutationRecord) (fs : Files)
      → w.is_record_writable rolled_back ≡ true
      → rollback_mutation w after ≡ rollback_files w after new (none, fs)
      → ((path : String) → fs path ≡ store.files path)
      → IsUndoneIn store after
  unfolding rollback_files
  rolled-IsUndone store after new fs save h k =
      let last : MutationRecord = record new { status = rolled_back } in
      let end : Store = record after { files = fs; saved = some last } in
      let done : MutationOutcome = (ok last, end) in
      let stuck : MutationOutcome = (err os_error, record after { files = fs }) in
      (last, end, h ∙ ap (λ b. if b then done else stuck) save, k)

  apply_result-IsUndone :
      (store : Store) (r : MutationRecord) (ps : List Prepared)
      → ((path : String) → w.is_restorable path ≡ true)
      → w.is_record_writable rolled_back ≡ true
      → All (IsOriginal store.files) ps
      → All (IsResolved w) ps
      → are_apart w (files_of ps) ≡ true
      → All (HasNoBackup store.backups) (files_of ps)
      → (back_up_all w ps store.backups).0 ≡ true
      → (write_all w ps [] store.files).failure ≡ none
      → IsUndoneIn store (record store {
        backups = (back_up_all w ps store.backups).1;
        files = (write_all w ps [] store.files).now;
        saved =
            some (record r { status = applied; files = (write_all w ps [] store.files).hashed });
      })
  unfolding rollback_mutation rollback_saved rollback_in rollback_checked
  apply_result-IsUndone store r ps u save o rs a n b f =
      let t = write_all w ps [] store.files in
      let k = write_all-ok w ps [] store.files f in
      let backups = (back_up_all w ps store.backups).1 in
      let new : MutationRecord = record r { status = applied; files = t.hashed } in
      let after : Store = record store { backups = backups; files = t.now; saved = some new } in
      let kept : All (IsBackedUp w backups) ps =
        subst (λ g. All (IsBackedUp w g) ps) (sym (back_up_all-ok w ps store.backups b))
          (back_up_each-IsBackedUp w ps store.backups a n) in
      rolled-IsUndone store after new (restore_each ps t.now) save
        (ap (λ c. rollback_checked w after new c)
            (ap (λ l. check_hashes w changed_since_apply (λ f. f.after_hash) t.now l) k.0
              ∙ ap (λ g. check_hashes w changed_since_apply (λ f. f.after_hash) g (hashed_all w ps))
                  k.1
              ∙ check_hashes-ok w (write_each ps store.files) ps rs
                  (write_each-IsWritten w ps store.files rs a))
          ∙ ap (rollback_files w after new) (
              ap (λ l. restore_backups w backups l t.now) k.0
              ∙ restore_backups-restore w backups ps t.now u rs kept))
        (λ path. restore-at store.files path ps t.now o ∙ elim (Bool-cases (is_target path ps)) [
          | inl e ↦ ground (arith, e)
          | inr e ↦
              ground (arith, e, write_each-other w path ps store.files e, ap (λ g. g path) k.1)
        ])

  -- An application that is not saved has failed.
  apply_result-kept :
      (store kept : Store) (r : MutationRecord) (a : Attempt) (e : Option ConfigError)
      → (e ≡ none
          → IsUndoneIn store (record kept {
            files = a.now;
            saved = some (record r { status = applied; files = a.hashed });
          }))
      → IsUndone store (apply_result w kept r e a).0 (apply_result w kept r e a).1
  unfolding apply_result
  apply_result-kept store kept r a (some e) k = tt
  apply_result-kept store kept r a none k = for_test (w.is_record_writable applied)
    where
      new : MutationRecord
      new = record r { status = applied; files = a.hashed }

      ended : Bool → MutationOutcome
      ended b =
          if b
          then (ok new, record kept { files = a.now; saved = some new })
          else (err os_error, record kept { files = a.now })

      for_test : (b : Bool) → IsUndone store (ended b).0 (ended b).1
      for_test true = k refl
      for_test false = tt

  apply_prepared-IsUndone :
      (store : Store) (r : MutationRecord) (o : Option (List Prepared))
      → ((path : String) → w.is_restorable path ≡ true)
      → w.is_record_writable rolled_back ≡ true
      → prepare w store.files r.files ≡ o
      → are_apart w r.files ≡ true
      → All (HasNoBackup store.backups) r.files
      → IsUndone store (apply_prepared w store r o).0 (apply_prepared w store r o).1
  unfolding apply_prepared apply_backed_up
  apply_prepared-IsUndone store r none u save e a n = tt
  apply_prepared-IsUndone store r (some ps) u save e a n =
      let m = prepare-files w store.files r.files {ps = ps} e in
      for_backups (back_up_all w ps store.backups).0
        (λ b f.
          apply_result-IsUndone store r ps u save
            (prepare-IsOriginal w store.files r.files {ps = ps} e) m.1
            (subst (λ l. are_apart w l ≡ true) m.0 a)
            (subst (λ l. All (HasNoBackup store.backups) l) m.0 n) b f)
        refl
    where
      kept : Store
      kept = record store { backups = (back_up_all w ps store.backups).1 }

      for_backups :
          (b : Bool)
          → ((back_up_all w ps store.backups).0 ≡ true
              → (write_all w ps [] store.files).failure ≡ none
              → IsUndoneIn store (record kept {
                files = (write_all w ps [] store.files).now;
                saved =
                    some (record r {
                      status = applied;
                      files = (write_all w ps [] store.files).hashed;
                    });
              }))
          → (back_up_all w ps store.backups).0 ≡ b
          → IsUndone store (apply_backed_up w kept r ps b).0 (apply_backed_up w kept r ps b).1
      for_backups false k h = tt
      for_backups true k h =
          apply_result-kept store kept r (write_all w ps [] store.files)
            (write_all w ps [] store.files).failure (k h)

-- A planned change whose files are apart, with different backups, and that has no backup yet: once
-- it has been applied, its rollback, if the system lets it put the files back and save the record,
-- succeeds and leaves every file as it was before, with the files gone that the change created.
pub rollback_mutation-apply_mutation :
    (w : World) (store : Store) (r : MutationRecord) {r' : MutationRecord} {after : Store}
    → ((path : String) → w.is_restorable path ≡ true)
    → w.is_record_writable rolled_back ≡ true
    → store.saved ≡ some r
    → r.status ≡ planned
    → are_apart w r.files ≡ true
    → All (HasNoBackup store.backups) r.files
    → apply_mutation w store ≡ (ok r', after)
    → IsUndoneIn w store after
unfolding apply_mutation apply_saved apply_unless_applied apply_checked
rollback_mutation-apply_mutation w store r {r'} {after} u save saved status apart none_yet h =
    subst (λ o. IsUndone w store o.0 o.1)
      (ap (apply_unless_applied w store r) (sym status) ∙ ap (apply_saved w store) (sym saved) ∙ h)
      (for_check (check_hashes w changed_since_plan (λ f. f.before_hash) store.files r.files))
  where
    for_check :
        (c : Option ConfigError)
        → IsUndone w store (apply_checked w store r c).0 (apply_checked w store r c).1
    for_check none =
        apply_prepared-IsUndone w store r (prepare w store.files r.files) u save refl apart none_yet
    for_check (some e) = tt
