-- ===== src/Agent/Mutations.antt =====
-- The application of a planned change of configuration files, and its rollback:
-- agent/portforge_agent/config_manager.py with the files of config_files.py. A file's content is
-- its text, and a file that exists can be read. Times in the record are left out.
pub mod Restore
pub mod Traces
pub mod Rollback
use port_forge.Prelude.{
  ℕ, String, Option, none, some, List, [], ◌∷◌, ◌++◌, map, Bool, true, false, not, ◌&&◌, ◌||◌, ◌==◌,
  is_some, opt_str_eq, str_eq, codes, codes_eq, if◌then◌else◌,
}
use port_forge.Prelude.Result.{Result, ok, err}

pub data MutationStatus : Type 0 where
  planned applied rolled_back : MutationStatus

pub data ConfigError : Type 0 where
  path_outside_project mutation_not_found changed_since_plan validation_failed : ConfigError
  apply_failed rollback_failed changed_since_apply : ConfigError

-- How a call ends without an answer: with an error of the module, or with an `OSError` that nothing
-- in it catches.
pub data Failure : Type 0 where
  raised : ConfigError → Failure
  os_error : Failure

-- An entry of `record["files"]`
pub record PlannedFile : Type 0 where
  pub relative_path : String
  pub kind : String
  pub before_hash : Option String
  pub new_content : String
  pub after_hash : Option String

pub record MutationRecord : Type 0 where
  pub mutation_id : String
  pub status : MutationStatus
  pub files : List PlannedFile

abbrev pub Files : Type 0
Files = String → Option String

-- The project's files, and the backups and the record of one mutation.
pub record Store : Type 0 where
  pub files : Files
  pub backups : List ℕ → Option String
  pub saved : Option MutationRecord

-- What is outside: `Path.resolve` under the project's root and `relative_to` it, SHA-256, whether a text
-- parses as Compose or Kubernetes YAML, and the system's refusals: to replace a file, to put one back
-- or remove it, to write a backup, and to save the record.
pub record World : Type 0 where
  pub resolve : String → String
  pub is_relative_to_root : String → Bool
  pub sha256 : String → String
  pub is_compose : String → Bool
  pub is_kubernetes : String → Bool
  pub is_writable : String → Bool
  pub is_restorable : String → Bool
  pub is_backup_writable : List ℕ → Bool
  pub is_record_writable : MutationStatus → Bool

-- The resolved path, if it is inside the root
unfoldable pub resolve_within_root : World → String → Option String
resolve_within_root w relative_file =
    if w.is_relative_to_root (w.resolve relative_file) then some (w.resolve relative_file) else none

-- `_validate_rendered_file`
abbrev pub is_valid : World → String → String → Bool
is_valid w kind content =
    if str_eq kind "compose"
    then w.is_compose content
    else if str_eq kind "kubernetes"
    then w.is_kubernetes content
    else true

abbrev pub write : String → String → Files → Files
write path content fs = λ q. if str_eq q path then some content else fs q

abbrev pub unlink : String → Files → Files
unlink path fs = λ q. if str_eq q path then none else fs q

-- What a restoration does with an original that may not have existed.
abbrev pub put_back : String → Option String → Files → Files
put_back path none fs = unlink path fs
put_back path (some content) fs = write path content fs

-- `sha256_of_path`
abbrev pub hash_of : World → Option String → Option String
hash_of w none = none
hash_of w (some content) = some (w.sha256 content)

abbrev pub replaced_code : ℕ → List ℕ → List ℕ
replaced_code c rest = if c == 47 || c == 92 then 95 ∷ 95 ∷ rest else c ∷ rest

abbrev pub replaced_codes : List ℕ → List ℕ
replaced_codes [] = []
replaced_codes (c ∷ cs) = replaced_code c (replaced_codes cs)

-- `_safe_backup_name`
abbrev pub safe_backup_name : String → List ℕ
safe_backup_name path = replaced_codes (codes path)

-- The check of every file before any is touched: against the hash that `expected` names.
abbrev pub checked : Bool → ConfigError → Option ConfigError → Option ConfigError
checked same changed rest = if same then rest else some changed

unfoldable pub check_hashes :
    World
    → ConfigError
    → (PlannedFile → Option String)
    → Files
    → List PlannedFile
    → Option ConfigError
check_hashes w changed expected fs [] = none
check_hashes w changed expected fs (f ∷ rest) =
    let later = check_hashes w changed expected fs rest in
    elim (resolve_within_root w f.relative_path) [
      | none ↦ some path_outside_project
      | some target ↦ checked (opt_str_eq (hash_of w (fs target)) (expected f)) changed later
    ]

-- An entry of `prepared`
pub record Prepared : Type 0 where
  pub file : PlannedFile
  pub target : String
  pub original : Option String

abbrev pub prepended : Prepared → Option (List Prepared) → Option (List Prepared)
prepended p none = none
prepended p (some ps) = some (p ∷ ps)

unfoldable pub prepare : World → Files → List PlannedFile → Option (List Prepared)
prepare w fs [] = some []
prepare w fs (f ∷ rest) =
    let later = prepare w fs rest in
    elim (resolve_within_root w f.relative_path) [
      | none ↦ none
      | some target ↦ prepended (record { file = f; target = target; original = fs target }) later
    ]

abbrev pub back_up : List ℕ → Option String → (List ℕ → Option String) → List ℕ → Option String
back_up name none backups = backups
back_up name (some content) backups = λ n. if codes_eq n name then some content else backups n

-- A file that is to be created has no backup.
abbrev pub is_backed_up : World → Prepared → Bool
is_backed_up w p =
    not (is_some p.original) || w.is_backup_writable (safe_backup_name p.file.relative_path)

-- The backups, up to the first that cannot be written, and whether all are.
unfoldable pub back_up_all :
    World → List Prepared → (List ℕ → Option String) → Bool × (List ℕ → Option String)
back_up_all w [] backups = (true, backups)
back_up_all w (p ∷ ps) backups =
    let rest =
      back_up_all w ps (back_up (safe_backup_name p.file.relative_path) p.original backups) in
    if is_backed_up w p then rest else (false, backups)

-- How the writes have gone: the first failure, the targets written, and the files of the record.
pub record Attempt : Type 0 where
  pub failure : Option ConfigError
  pub written : List Prepared
  pub now : Files
  pub hashed : List PlannedFile

abbrev pub with_after_hash : World → PlannedFile → PlannedFile
with_after_hash w f = record f { after_hash = some (w.sha256 f.new_content) }

abbrev pub attempt : Option ConfigError → List Prepared → Files → Attempt
attempt failure written fs = record { failure = failure; written = written; now = fs; hashed = [] }

abbrev pub with_hashed : PlannedFile → Attempt → Attempt
with_hashed f a = record a { hashed = f ∷ a.hashed }

-- What was written is read again, compared and parsed.
abbrev pub is_written_well : World → Prepared → Files → Bool
is_written_well w p fs =
    opt_str_eq (fs p.target) (some p.file.new_content) && is_valid w p.file.kind p.file.new_content

unfoldable pub write_all : World → List Prepared → List Prepared → Files → Attempt
write_all w [] written fs = attempt none written fs
write_all w (p ∷ ps) written fs =
    let after = write p.target p.file.new_content fs in
    let rest = write_all w ps (written ++ p ∷ []) after in
    if w.is_writable p.target
    then if is_written_well w p after
      then with_hashed (with_after_hash w p.file) rest
      else attempt (some validation_failed) (written ++ p ∷ []) after
    else attempt (some apply_failed) written fs

-- What was written is put back, up to the first that cannot be, and whether all is.
unfoldable pub restore : World → List Prepared → Files → Bool × Files
restore w [] fs = (true, fs)
restore w (p ∷ ps) fs =
    let rest = restore w ps (put_back p.target p.original fs) in
    if w.is_restorable p.target then rest else (false, fs)

abbrev pub MutationOutcome : Type 0
MutationOutcome = Result Failure MutationRecord × Store

unfoldable pub apply_result :
    World → Store → MutationRecord → Option ConfigError → Attempt → MutationOutcome
unfolding restore
apply_result w store r (some e) a =
    let undone = restore w a.written a.now in
    (err (if undone.0 then raised e else os_error), record store { files = undone.1 })
apply_result w store r none a =
    let new : MutationRecord = record r { status = applied; files = a.hashed } in
    if w.is_record_writable applied
    then (ok new, record store { files = a.now; saved = some new })
    else (err os_error, record store { files = a.now })

unfoldable pub apply_backed_up :
    World → Store → MutationRecord → List Prepared → Bool → MutationOutcome
unfolding write_all apply_result
apply_backed_up w store r ps false = (err os_error, store)
apply_backed_up w store r ps true =
    let a = write_all w ps [] store.files in apply_result w store r a.failure a

unfoldable pub apply_prepared :
    World → Store → MutationRecord → Option (List Prepared) → MutationOutcome
unfolding back_up_all apply_backed_up
apply_prepared w store r none = (err (raised path_outside_project), store)
apply_prepared w store r (some ps) =
    let kept = back_up_all w ps store.backups in
    apply_backed_up w (record store { backups = kept.1 }) r ps kept.0

unfoldable pub apply_checked : World → Store → MutationRecord → Option ConfigError → MutationOutcome
unfolding apply_prepared prepare
apply_checked w store r (some e) = (err (raised e), store)
apply_checked w store r none = apply_prepared w store r (prepare w store.files r.files)

unfoldable pub apply_unless_applied :
    World → Store → MutationRecord → MutationStatus → MutationOutcome
unfolding apply_checked check_hashes
apply_unless_applied w store r applied = (ok r, store)
apply_unless_applied w store r _ =
    apply_checked w store r
      (check_hashes w changed_since_plan (λ f. f.before_hash) store.files r.files)

unfoldable pub apply_saved : World → Store → Option MutationRecord → MutationOutcome
unfolding apply_unless_applied
apply_saved w store none = (err (raised mutation_not_found), store)
apply_saved w store (some r) = apply_unless_applied w store r r.status

unfoldable pub apply_mutation : World → Store → MutationOutcome
unfolding apply_saved
apply_mutation w store = apply_saved w store store.saved

-- The restorations of a rollback: from the backup of each file, which a new file does not have, up
-- to the first that fails.
unfoldable pub restore_backups :
    World → (List ℕ → Option String) → List PlannedFile → Files → Option Failure × Files
restore_backups w backups [] fs = (none, fs)
restore_backups w backups (f ∷ rest) fs = elim (resolve_within_root w f.relative_path) [
  | none ↦ (some (raised path_outside_project), fs)
  | some target ↦
      let later =
        restore_backups w backups rest
          (put_back target (backups (safe_backup_name f.relative_path)) fs) in
      if w.is_restorable target then later else (some os_error, fs)
]

unfoldable pub rollback_files :
    World → Store → MutationRecord → Option Failure × Files → MutationOutcome
rollback_files w store r (some e, fs) = (err e, record store { files = fs })
rollback_files w store r (none, fs) =
    let new : MutationRecord = record r { status = rolled_back } in
    if w.is_record_writable rolled_back
    then (ok new, record store { files = fs; saved = some new })
    else (err os_error, record store { files = fs })

unfoldable pub rollback_checked :
    World → Store → MutationRecord → Option ConfigError → MutationOutcome
unfolding restore_backups rollback_files
rollback_checked w store r (some e) = (err (raised e), store)
rollback_checked w store r none =
    rollback_files w store r (restore_backups w store.backups r.files store.files)

unfoldable pub rollback_in : World → Store → MutationRecord → MutationStatus → MutationOutcome
unfolding rollback_checked check_hashes
rollback_in w store r rolled_back = (ok r, store)
rollback_in w store r planned = (err (raised rollback_failed), store)
rollback_in w store r applied =
    rollback_checked w store r
      (check_hashes w changed_since_apply (λ f. f.after_hash) store.files r.files)

unfoldable pub rollback_saved : World → Store → Option MutationRecord → MutationOutcome
unfolding rollback_in
rollback_saved w store none = (err (raised mutation_not_found), store)
rollback_saved w store (some r) = rollback_in w store r r.status

unfoldable pub rollback_mutation : World → Store → MutationOutcome
unfolding rollback_saved
rollback_mutation w store = rollback_saved w store store.saved
