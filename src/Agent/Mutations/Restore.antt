-- ===== src/Agent/Mutations/Restore.antt =====
-- What the writes of an application leave, and that a restoration undoes them.
use mathlib.Core.Path.{subst}
use port_forge.Prelude.{
  ℕ, ◌≢◌, ◌⊎◌, sym, String, Option, none, some, List, [], ◌∷◌, ◌++◌, Bool, true, false, ◌≡◌, refl,
  ap, ◌∙◌, arith, any, any-append, All, All-append, or_default, str_eq, eq_iff, Bool-cases, inl,
  inr, if◌then◌else◌,
}
use port_forge.Prelude.Result.{Result, ok, err}
use port_forge.Agent.Mutations.{
  MutationStatus, planned, applied, rolled_back, ConfigError, PlannedFile, resolve_within_root,
  MutationRecord, Files, Store, World, write, put_back, check_hashes, changed_since_plan, Prepared,
  MutationOutcome, prepare, prepended, validation_failed, apply_failed, back_up_all,
  apply_backed_up, Failure, raised, os_error, Attempt, attempt, with_hashed, with_after_hash,
  is_written_well, write_all, restore, apply_result, apply_prepared, apply_checked,
  apply_unless_applied, apply_saved, apply_mutation,
}

abbrev pub is_target : String → List Prepared → Bool
is_target path ps = any (λ p. str_eq path p.target) ps

-- The restorations, all made.
abbrev pub restore_each : List Prepared → Files → Files
restore_each [] fs = fs
restore_each (p ∷ ps) fs = restore_each ps (put_back p.target p.original fs)

restore-ok :
    (w : World) (ps : List Prepared) (fs : Files)
    → (restore w ps fs).0 ≡ true
    → (restore w ps fs).1 ≡ restore_each ps fs
unfolding restore
restore-ok w [] fs h = refl
restore-ok w (p ∷ ps) fs h = ground (
  arith,
  restore-ok w ps (put_back p.target p.original fs),
  Bool-cases (w.is_restorable p.target),
)

restore-succeeds :
    (w : World) (ps : List Prepared) (fs : Files)
    → ((path : String) → w.is_restorable path ≡ true)
    → (restore w ps fs).0 ≡ true
unfolding restore
restore-succeeds w [] fs h = refl
restore-succeeds w (p ∷ ps) fs h =
    ground (arith, h p.target, restore-succeeds w ps (put_back p.target p.original fs) h)

module _ (before : Files) where
  -- What was read before the writes is what stood there.
  abbrev pub IsOriginal : Prepared → Type 0
  IsOriginal p = p.original ≡ before p.target

  put_back-at :
      (path : String) (p : Prepared) (fs : Files)
      → IsOriginal p
      → put_back p.target p.original fs path
        ≡ (if str_eq path p.target then before path else fs path)
  put_back-at path p fs o = for_original p.original o
    where
      for_original :
          (c : Option String)
          → c ≡ before p.target
          → put_back p.target c fs path ≡ (if str_eq path p.target then before path else fs path)
      for_original none e = elim (Bool-cases (str_eq path p.target)) [
        | inl m ↦ ground (arith, m, e, ap before ((eq_iff path p.target).0 m))
        | inr m ↦ ground (arith, m)
      ]
      for_original (some c) e = elim (Bool-cases (str_eq path p.target)) [
        | inl m ↦ ground (arith, m, e, ap before ((eq_iff path p.target).0 m))
        | inr m ↦ ground (arith, m)
      ]

  -- A restoration puts back what stood at each target, and leaves every other path.
  pub restore-at :
      (path : String) (ps : List Prepared) (fs : Files)
      → All IsOriginal ps
      → restore_each ps fs path ≡ (if is_target path ps then before path else fs path)
  restore-at path [] fs o = refl
  restore-at path (p ∷ ps) fs o =
      restore-at path ps (put_back p.target p.original fs) o.1
      ∙ ground (arith, put_back-at path p fs o.0)

  -- The paths that were not written have what they had.
  unfoldable pub Agrees : List Prepared → Files → Type 0
  Agrees written fs = (path : String) → is_target path written ≡ false → fs path ≡ before path

  unfoldable pub IsUndoable : Attempt → Type 0
  IsUndoable a = All IsOriginal a.written × Agrees a.written a.now

  write-Agrees :
      (p : Prepared) (written : List Prepared) (fs : Files)
      → Agrees written fs
      → Agrees (written ++ p ∷ []) (write p.target p.file.new_content fs)
  unfolding Agrees
  write-Agrees p written fs a path n = elim (Bool-cases (is_target path written)) [
    | inl t ↦
        absurd (ground (arith, t, n, any-append (λ p'. str_eq path p'.target) written (p ∷ [])))
    | inr t ↦
        ground (arith, a path t, t, n, any-append (λ p'. str_eq path p'.target) written (p ∷ []))
  ]

  pub write_all-IsUndoable :
      (w : World) (ps written : List Prepared) (fs : Files)
      → All IsOriginal ps
      → All IsOriginal written
      → Agrees written fs
      → IsUndoable (write_all w ps written fs)
  unfolding write_all IsUndoable
  write_all-IsUndoable w [] written fs o k a = (k, a)
  write_all-IsUndoable w (p ∷ ps) written fs o k a =
      for_tests
        (write_all-IsUndoable w ps (written ++ p ∷ []) after o.1 grown
          (write-Agrees p written fs a))
        (w.is_writable p.target) (is_written_well w p after)
    where
      after : Files
      after = write p.target p.file.new_content fs

      grown : All IsOriginal (written ++ p ∷ [])
      grown = All-append IsOriginal written (p ∷ []) k (o.0, tt)

      for_tests :
          IsUndoable (write_all w ps (written ++ p ∷ []) after)
          → (x y : Bool)
          → IsUndoable (
              if x
              then if y
                then with_hashed
                    (with_after_hash w p.file)
                    (write_all w ps (written ++ p ∷ []) after)
                else attempt (some validation_failed) (written ++ p ∷ []) after
              else attempt (some apply_failed) written fs)
      for_tests rest true true = rest
      for_tests rest true false = (grown, write-Agrees p written fs a)
      for_tests rest false y = (k, a)

  pub restored :
      (a : Attempt)
      → IsUndoable a
      → (path : String) → restore_each a.written a.now path ≡ before path
  unfolding IsUndoable Agrees
  restored a u path =
      restore-at path a.written a.now u.0 ∙ elim (Bool-cases (is_target path a.written)) [
        | inl t ↦ ground (arith, t)
        | inr t ↦ ground (arith, t, u.1 path t)
      ]

pub some_injective {ℓ} : {A : Type ℓ} {a b : A} → some a ≡ some b → a ≡ b
some_injective {a = a} h = ap (λ o. or_default o a) h

pub prepare-IsOriginal :
    (w : World) (fs : Files) (files : List PlannedFile) {ps : List Prepared}
    → prepare w fs files ≡ some ps
    → All (IsOriginal fs) ps
unfolding prepare
prepare-IsOriginal w fs [] {ps} e = subst (λ l. All (IsOriginal fs) l) (some_injective e) tt
prepare-IsOriginal w fs (f ∷ rest) {ps} e =
    for_path (resolve_within_root w f.relative_path) (prepare w fs rest)
      (λ qs k. prepare-IsOriginal w fs rest {ps = qs} k) e
  where
    for_path :
        (t : Option String) (later : Option (List Prepared))
        → ((qs : List Prepared) → later ≡ some qs → All (IsOriginal fs) qs)
        → (elim t [
          | none ↦ none
          | some target ↦
              prepended (record { file = f; target = target; original = fs target }) later
        ])
          ≡ some ps
        → All (IsOriginal fs) ps
    for_path none later k h = absurd (cc h)
    for_path (some target) none k h = absurd (cc h)
    for_path (some target) (some qs) k h =
        subst (λ l. All (IsOriginal fs) l) (some_injective h) (refl, k qs refl)

-- The call ended with an error of the module; or, where an `OSError` ended it, what was written could
-- be put back and the record could be saved.
abbrev pub IsRecoverable : World → Failure → Type 0
IsRecoverable w e =
    (e ≢ os_error)
    ⊎ (((path : String) → w.is_restorable path ≡ true) × (w.is_record_writable applied ≡ true))

-- Of a failed call: what it leaves.
abbrev IsKept : World → Store → Result Failure MutationRecord → Store → Type 0
IsKept w store (ok r) after = Unit
IsKept w store (err e) after =
    IsRecoverable w e
    → ((path : String) → after.files path ≡ store.files path) × (after.saved ≡ store.saved)

apply_result-IsKept :
    (w : World) (store : Store) (r : MutationRecord) (e : Option ConfigError) (a : Attempt)
    → IsUndoable store.files a
    → IsKept w store (apply_result w store r e a).0 (apply_result w store r e a).1
unfolding apply_result
apply_result-IsKept w store r none a u = for_test (w.is_record_writable applied) refl
  where
    new : MutationRecord
    new = record r { status = applied; files = a.hashed }

    ended : Bool → MutationOutcome
    ended b =
        if b
        then (ok new, record store { files = a.now; saved = some new })
        else (err os_error, record store { files = a.now })

    for_test :
        (b : Bool) → w.is_record_writable applied ≡ b → IsKept w store (ended b).0 (ended b).1
    for_test true h = tt
    for_test false h = λ k. elim k [ inl n ↦ absurd (n refl) | inr x ↦ absurd (cc (sym h ∙ x.1)) ]
apply_result-IsKept w store r (some e) a u = for_undone (restore w a.written a.now) refl
  where
    for_undone :
        (undone : Bool × Files)
        → restore w a.written a.now ≡ undone
        → IsRecoverable w (if undone.0 then raised e else os_error)
        → ((path : String) → undone.1 path ≡ store.files path) × (store.saved ≡ store.saved)
    for_undone (true, fs) h k = (
      λ path.
          ap (λ x. x.1 path) (sym h)
          ∙ ap (λ g. g path) (restore-ok w a.written a.now (ap (λ x. x.0) h))
          ∙ restored store.files a u path,
      refl,
    )
    for_undone (false, fs) h k = elim k [
      | inl n ↦ absurd (n refl)
      | inr x ↦ absurd (cc (sym (restore-succeeds w a.written a.now x.0) ∙ ap (λ y. y.0) h))
    ]

apply_prepared-IsKept :
    (w : World) (store : Store) (r : MutationRecord) (ps : List Prepared)
    → All (IsOriginal store.files) ps
    → IsKept w store (apply_prepared w store r (some ps)).0 (apply_prepared w store r (some ps)).1
unfolding apply_prepared apply_backed_up Agrees
apply_prepared-IsKept w store r ps o = for_kept (back_up_all w ps store.backups)
  where
    for_kept :
        (kept : Bool × (List ℕ → Option String))
        → IsKept w store
            (apply_backed_up w (record store { backups = kept.1 }) r ps kept.0).0
            (apply_backed_up w (record store { backups = kept.1 }) r ps kept.0).1
    for_kept (false, backups) = λ k. (λ path. refl, refl)
    for_kept (true, backups) =
        let a = write_all w ps [] store.files in
        apply_result-IsKept w (record store { backups = backups }) r a.failure a
          (write_all-IsUndoable store.files w ps [] store.files o tt (λ path n. refl))

apply_checked-IsKept :
    (w : World) (store : Store) (r : MutationRecord) (c : Option ConfigError)
    → IsKept w store (apply_checked w store r c).0 (apply_checked w store r c).1
unfolding apply_checked apply_prepared
apply_checked-IsKept w store r (some e) = λ k. (λ path. refl, refl)
apply_checked-IsKept w store r none =
    for_prepared (prepare w store.files r.files)
      (λ ps k. prepare-IsOriginal w store.files r.files {ps = ps} k)
  where
    for_prepared :
        (o : Option (List Prepared))
        → ((ps : List Prepared) → o ≡ some ps → All (IsOriginal store.files) ps)
        → IsKept w store (apply_prepared w store r o).0 (apply_prepared w store r o).1
    for_prepared none k = λ x. (λ path. refl, refl)
    for_prepared (some ps) k = apply_prepared-IsKept w store r ps (k ps refl)

apply_saved-IsKept :
    (w : World) (store : Store) (saved : Option MutationRecord)
    → IsKept w store (apply_saved w store saved).0 (apply_saved w store saved).1
unfolding apply_saved apply_unless_applied
apply_saved-IsKept w store none = λ k. (λ path. refl, refl)
apply_saved-IsKept w store (some r) = for_status r.status
  where
    for_status :
        (st : MutationStatus)
        → IsKept w store (apply_unless_applied w store r st).0 (apply_unless_applied w store r st).1
    for_status planned =
        apply_checked-IsKept w store r
          (check_hashes w changed_since_plan (λ f. f.before_hash) store.files r.files)
    for_status applied = tt
    for_status rolled_back =
        apply_checked-IsKept w store r
          (check_hashes w changed_since_plan (λ f. f.before_hash) store.files r.files)

-- An application that ends with an error of the module (`ConfigError` or `ConfigPathError`), at
-- whichever file, leaves every file of the project as it was, and the saved record too. So does one
-- that an `OSError` ends, if what was written can be put back and the record can be saved.
pub apply_mutation_all_or_nothing :
    (w : World) (store : Store) {e : Failure} {store' : Store}
    → apply_mutation w store ≡ (err e, store')
    → IsRecoverable w e
    → ((path : String) → store'.files path ≡ store.files path) × (store'.saved ≡ store.saved)
unfolding apply_mutation
apply_mutation_all_or_nothing w store {e} {store'} h recoverable =
    subst (λ o. IsKept w store o.0 o.1) h (apply_saved-IsKept w store store.saved) recoverable
