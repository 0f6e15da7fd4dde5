-- ===== src/Agent/Mutations/Traces.antt =====
-- What an application leaves in its record and its backups, for the rollback.
use mathlib.Core.Path.{subst}
use port_forge.Prelude.{
  ℕ, String, Option, none, some, List, [], ◌∷◌, ◌++◌, Bool, true, false, not, ◌&&◌, ◌||◌, ◌≡◌, refl,
  ap, ◌∙◌, arith, any, All, opt_str_eq, codes_eq, codes_eq_iff, eq_iff, opt_str_eq_iff, Bool-cases,
  if◌then◌else◌,
}
use port_forge.Agent.Mutations.{
  PlannedFile, resolve_within_root, Files, World, write, put_back, hash_of, check_hashes, checked,
  changed_since_apply, path_outside_project, validation_failed, apply_failed, Prepared, prepare,
  prepended, back_up, back_up_all, Attempt, attempt, with_hashed, with_after_hash, is_written_well,
  write_all, Failure, raised, os_error, is_backed_up, safe_backup_name, restore_backups,
}
use port_forge.Agent.Mutations.Restore.{is_target, restore_each, some_injective}

-- Two files of a record that are one file, or have one backup.
abbrev pub shares : World → PlannedFile → PlannedFile → Bool
shares w f g =
    opt_str_eq (resolve_within_root w f.relative_path) (resolve_within_root w g.relative_path)
    || codes_eq (safe_backup_name f.relative_path) (safe_backup_name g.relative_path)

abbrev pub are_apart : World → List PlannedFile → Bool
are_apart w [] = true
are_apart w (f ∷ rest) = not (any (shares w f) rest) && are_apart w rest

abbrev pub HasNoBackup : (List ℕ → Option String) → PlannedFile → Type 0
HasNoBackup backups f = backups (safe_backup_name f.relative_path) ≡ none

-- The writes, all made.
abbrev pub write_each : List Prepared → Files → Files
write_each [] fs = fs
write_each (p ∷ ps) fs = write_each ps (write p.target p.file.new_content fs)

abbrev pub hashed_all : World → List Prepared → List PlannedFile
hashed_all w [] = []
hashed_all w (p ∷ ps) = with_after_hash w p.file ∷ hashed_all w ps

abbrev pub files_of : List Prepared → List PlannedFile
files_of [] = []
files_of (p ∷ ps) = p.file ∷ files_of ps

module _ (w : World) where
  abbrev pub IsResolved : Prepared → Type 0
  IsResolved p = resolve_within_root w p.file.relative_path ≡ some p.target

  pub write_all-ok :
      (ps written : List Prepared) (fs : Files)
      → (write_all w ps written fs).failure ≡ none
      → ((write_all w ps written fs).hashed ≡ hashed_all w ps)
        × ((write_all w ps written fs).now ≡ write_each ps fs)
  unfolding write_all
  write_all-ok [] written fs h = (refl, refl)
  write_all-ok (p ∷ ps) written fs h =
      let after : Files = write p.target p.file.new_content fs in
      for_tests (λ k. write_all-ok ps (written ++ p ∷ []) after k) (w.is_writable p.target)
        (is_written_well w p after) h
    where
      tried : Bool → Bool → Attempt
      tried x y =
          let after : Files = write p.target p.file.new_content fs in
          if x
          then if y
            then with_hashed (with_after_hash w p.file) (write_all w ps (written ++ p ∷ []) after)
            else attempt (some validation_failed) (written ++ p ∷ []) after
          else attempt (some apply_failed) written fs

      for_tests :
          ((write_all w ps (written ++ p ∷ []) (write p.target p.file.new_content fs)).failure
              ≡ none
            → ((write_all w ps (written ++ p ∷ []) (write p.target p.file.new_content fs)).hashed
                ≡ hashed_all w ps)
              × ((write_all w ps (written ++ p ∷ []) (write p.target p.file.new_content fs)).now
                  ≡ write_each ps (write p.target p.file.new_content fs)))
          → (x y : Bool) → (tried x y).failure ≡ none
          → ((tried x y).hashed ≡ hashed_all w (p ∷ ps))
            × ((tried x y).now ≡ write_each (p ∷ ps) fs)
      for_tests rest true true k =
          let r = rest k in (ap (λ l. with_after_hash w p.file ∷ l) r.0, r.1)
      for_tests rest true false k = absurd (cc k)
      for_tests rest false y k = absurd (cc k)

  pub prepare-files :
      (fs : Files) (files : List PlannedFile) {ps : List Prepared}
      → prepare w fs files ≡ some ps
      → (files ≡ files_of ps) × All IsResolved ps
  unfolding prepare
  prepare-files fs [] {ps} e =
      subst (λ l. ([] ≡ files_of l) × All IsResolved l) (some_injective e) (refl, tt)
  prepare-files fs (f ∷ rest) {ps} e =
      for_path (resolve_within_root w f.relative_path) refl (prepare w fs rest)
        (λ qs k. prepare-files fs rest {ps = qs} k) e
    where
      for_path :
          (t : Option String)
          → resolve_within_root w f.relative_path ≡ t
          → (later : Option (List Prepared))
          → ((qs : List Prepared) → later ≡ some qs → (rest ≡ files_of qs) × All IsResolved qs)
          → (elim t [
            | none ↦ none
            | some target ↦
                prepended (record { file = f; target = target; original = fs target }) later
          ])
            ≡ some ps
          → (f ∷ rest ≡ files_of ps) × All IsResolved ps
      for_path none r later k h = absurd (cc h)
      for_path (some target) r none k h = absurd (cc h)
      for_path (some target) r (some qs) k h =
          let m = k qs refl in
          subst (λ l. (f ∷ rest ≡ files_of l) × All IsResolved l) (some_injective h)
            (ap (λ l. f ∷ l) m.0, (r, m.1))

  pub write_each-other :
      (path : String) (ps : List Prepared) (fs : Files)
      → is_target path ps ≡ false
      → write_each ps fs path ≡ fs path
  write_each-other path [] fs n = refl
  write_each-other path (p ∷ ps) fs n =
      write_each-other path ps (write p.target p.file.new_content fs) (ground (arith, n))
      ∙ ground (arith, n)

  -- The file at each target holds what was planned.
  abbrev pub IsWritten : Files → Prepared → Type 0
  IsWritten fs p = fs p.target ≡ some p.file.new_content

  pub unshared :
      (p : Prepared) (ps : List Prepared)
      → IsResolved p
      → All IsResolved ps
      → any (shares w p.file) (files_of ps) ≡ false
      → is_target p.target ps ≡ false
  unshared p [] r rs n = refl
  unshared p (q ∷ ps) r rs n = ground (
    arith,
    n,
    unshared p ps r rs.1,
    opt_str_eq_iff (resolve_within_root w p.file.relative_path)
        (resolve_within_root w q.file.relative_path),
    r,
    rs.0,
    eq_iff p.target q.target,
  )

  pub write_each-IsWritten :
      (ps : List Prepared) (fs : Files)
      → All IsResolved ps
      → are_apart w (files_of ps) ≡ true
      → All (IsWritten (write_each ps fs)) ps
  write_each-IsWritten [] fs rs a = tt
  write_each-IsWritten (p ∷ ps) fs rs a = (
    write_each-other p.target ps (write p.target p.file.new_content fs)
          (unshared p ps rs.0 rs.1 (ground (arith, a)))
        ∙ ground (arith, eq_iff p.target p.target),
    write_each-IsWritten ps (write p.target p.file.new_content fs) rs.1 (ground (arith, a)),
  )

  pub check_hashes-ok :
      (fs : Files) (ps : List Prepared)
      → All IsResolved ps
      → All (IsWritten fs) ps
      → check_hashes w changed_since_apply (λ f. f.after_hash) fs (hashed_all w ps) ≡ none
  unfolding check_hashes
  check_hashes-ok fs [] rs ws = refl
  check_hashes-ok fs (p ∷ ps) rs ws =
      ap
        (λ t. elim t [
          | none ↦ some path_outside_project
          | some target ↦
              checked (opt_str_eq (hash_of w (fs target)) (some (w.sha256 p.file.new_content)))
                changed_since_apply
                (check_hashes w changed_since_apply (λ f. f.after_hash) fs (hashed_all w ps))
        ])
        rs.0
      ∙ ap
          (λ c.
            checked (opt_str_eq (hash_of w c) (some (w.sha256 p.file.new_content)))
              changed_since_apply
              (check_hashes w changed_since_apply (λ f. f.after_hash) fs (hashed_all w ps)))
          ws.0
      ∙ ground (
        arith,
        eq_iff (w.sha256 p.file.new_content) (w.sha256 p.file.new_content),
        check_hashes-ok fs ps rs.1 ws.1,
      )

  -- The backup of each file holds what stood there.
  abbrev pub IsBackedUp : (List ℕ → Option String) → Prepared → Type 0
  IsBackedUp backups p = backups (safe_backup_name p.file.relative_path) ≡ p.original

  pub restore_backups-restore :
      (backups : List ℕ → Option String) (ps : List Prepared) (fs : Files)
      → ((path : String) → w.is_restorable path ≡ true)
      → All IsResolved ps
      → All (IsBackedUp backups) ps
      → restore_backups w backups (hashed_all w ps) fs ≡ (none, restore_each ps fs)
  unfolding restore_backups
  restore_backups-restore backups [] fs u rs bs = refl
  restore_backups-restore backups (p ∷ ps) fs u rs bs =
      let put : Option String → String → Option Failure × Files = λ c target.
        if w.is_restorable target
        then restore_backups w backups (hashed_all w ps) (put_back target c fs)
        else (some os_error, fs) in
      ap
        (λ t. elim t [
          | none ↦ (some (raised path_outside_project), fs)
          | some target ↦ put (backups (safe_backup_name p.file.relative_path)) target
        ])
        rs.0
      ∙ ap (λ c. put c p.target) bs.0
      ∙ ap
          (λ b.
            if b
            then restore_backups w backups (hashed_all w ps) (put_back p.target p.original fs)
            else (some os_error, fs))
          (u p.target)
      ∙ restore_backups-restore backups ps (put_back p.target p.original fs) u rs.1 bs.1

  -- The backups, all written.
  abbrev pub back_up_each : List Prepared → (List ℕ → Option String) → List ℕ → Option String
  back_up_each [] backups = backups
  back_up_each (p ∷ ps) backups =
      back_up_each ps (back_up (safe_backup_name p.file.relative_path) p.original backups)

  pub back_up_all-ok :
      (ps : List Prepared) (backups : List ℕ → Option String)
      → (back_up_all w ps backups).0 ≡ true
      → (back_up_all w ps backups).1 ≡ back_up_each ps backups
  unfolding back_up_all
  back_up_all-ok [] backups h = refl
  back_up_all-ok (p ∷ ps) backups h = ground (
    arith,
    back_up_all-ok ps (back_up (safe_backup_name p.file.relative_path) p.original backups),
    Bool-cases (is_backed_up w p),
  )

  pub back_up-at :
      (name : List ℕ) (original : Option String) (backups : List ℕ → Option String)
      → backups name ≡ none
      → back_up name original backups name ≡ original
  back_up-at name none backups n = n
  back_up-at name (some c) backups n = ground (arith, codes_eq_iff name name)

  pub back_up-other :
      (name other : List ℕ) (original : Option String) (backups : List ℕ → Option String)
      → codes_eq name other ≡ false
      → back_up name original backups other ≡ backups other
  back_up-other name other none backups n = refl
  back_up-other name other (some c) backups n =
      ground (arith, n, codes_eq_iff name other, codes_eq_iff other name)

  pub back_up_each-other :
      (f : PlannedFile) (ps : List Prepared) (backups : List ℕ → Option String)
      → any (shares w f) (files_of ps) ≡ false
      → back_up_each ps backups (safe_backup_name f.relative_path)
        ≡ backups (safe_backup_name f.relative_path)
  back_up_each-other f [] backups n = refl
  back_up_each-other f (p ∷ ps) backups n =
      back_up_each-other f ps (back_up (safe_backup_name p.file.relative_path) p.original backups)
        (ground (arith, n))
      ∙ back_up-other (safe_backup_name p.file.relative_path) (safe_backup_name f.relative_path)
          p.original backups
          (ground (
            arith,
            n,
            codes_eq_iff (safe_backup_name p.file.relative_path) (safe_backup_name f.relative_path),
            codes_eq_iff (safe_backup_name f.relative_path) (safe_backup_name p.file.relative_path),
          ))

  pub back_up_each-IsBackedUp :
      (ps : List Prepared) (backups : List ℕ → Option String)
      → are_apart w (files_of ps) ≡ true
      → All (HasNoBackup backups) (files_of ps)
      → All (IsBackedUp (back_up_each ps backups)) ps
  back_up_each-IsBackedUp [] backups a n = tt
  back_up_each-IsBackedUp (p ∷ ps) backups a n =
      let name = safe_backup_name p.file.relative_path in
      (
        back_up_each-other p.file ps (back_up name p.original backups) (ground (arith, a))
            ∙ back_up-at name p.original backups n.0,
        back_up_each-IsBackedUp ps (back_up name p.original backups) (ground (arith, a))
            (still_none p ps (ground (arith, a)) n.1),
      )
    where
      still_none :
          (p : Prepared) (qs : List Prepared)
          → any (shares w p.file) (files_of qs) ≡ false
          → All (HasNoBackup backups) (files_of qs)
          → All
              (HasNoBackup (back_up (safe_backup_name p.file.relative_path) p.original backups))
              (files_of qs)
      still_none p [] a n = tt
      still_none p (q ∷ qs) a n = (
        back_up-other (safe_backup_name p.file.relative_path)
              (safe_backup_name q.file.relative_path) p.original backups (ground (arith, a))
            ∙ n.0,
        still_none p qs (ground (arith, a)) n.1,
      )
