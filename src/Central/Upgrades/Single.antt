-- ===== src/Central/Upgrades/Single.antt =====
-- At most one upgrade of a host is in flight: an invariant of every operation on upgrades, and of
-- every sequence of them.
use port_forge.Prelude.{
  ℕ, ◌≤◌, String, Option, none, some, List, [], ◌∷◌, ◌++◌, Bool, true, false, not, ◌==◌, ◌≡◌, ◌⊎◌,
  inl, inr, refl, arith, any, ap, sym, ◌∙◌, Option-cases, update_first, length, ==_iff,
  if◌then◌else◌,
}
use mathlib.Core.Path.{subst}
use port_forge.Prelude.Result.{Result, ok, err, ◌>>=◌, >>=-eq-ok}
use port_forge.Central.Vocabulary.{UpgradeState}
use port_forge.Central.Tables.{Host, HostUpgrade, Db, Env}
use port_forge.Central.Upgrades.{
  is_terminal, is_active_for, non_terminal_for_host, upgrade_by_id, advance, StatusReport,
  update_upgrade_status, UpgradeIn, create_upgrade, rollback_upgrade, fail_active_for_host,
  as_rolled_back, new_upgrade, add_upgrade, replace_original, create_new, create_for, rollback_on,
  rollback_found, rollback_row, found, host_not_found, upgrade_not_found, no_previous_version,
  no_previous_artifact, previous_of, previous_artifact, blocks, is_downgrade, artifact_matches,
  upgrade_by_request, is_decommissioned, UpgradeError, downgrade, artifact_mismatch,
  host_decommissioned, upgrade_pending, integrity_error, repeats_request,
}
use port_forge.Central.Versions.{Versions}
use port_forge.Central.Probes.{host_by_id}
use port_forge.Central.Upgrades.Progress.{
  found-ok, update_upgrade_status-Transition, Transition, forward, fail,
}
use port_forge.Central.Upgrades.Rows.{
  in_flight-append, IdsFrom-append, IdsFrom-HasKey, length-update_first, found_active, found_by_id,
  IdsFrom-update, in_flight-update, in_flight, HasKey, IsSingle, in_flight-none,
  IdsFrom-update_first, in_flight-update_first,
}

-- A new row of a host that has none in flight.
add-IsSingle :
    (uuid : ℕ → ℕ) (rows : List HostUpgrade) (u : HostUpgrade)
    → IsSingle uuid rows
    → in_flight u.host_id rows ≡ 0
    → u.id ≡ uuid (length rows)
    → IsSingle uuid (rows ++ u ∷ [])
add-IsSingle uuid rows u s none_yet e = record {
  single = λ h. ground (arith, s.single h, in_flight-append h rows u, none_yet, ==_iff u.host_id h);
  ids = IdsFrom-append uuid 0 rows u s.ids (e ∙ ap uuid (omega arith));
}

-- A change of one row to a row of its host that is in flight only if the old one was.
change-IsSingle :
    (uuid : ℕ → ℕ) (rows : List HostUpgrade) (id : ℕ) (f : HostUpgrade → HostUpgrade)
    {u : HostUpgrade}
    → ((w : HostUpgrade) → (f w).id ≡ w.id)
    → upgrade_by_id id rows ≡ some u
    → ((h : ℕ) → is_active_for h u ≡ false → is_active_for h (f u) ≡ false)
    → IsSingle uuid rows
    → IsSingle uuid (update_first (λ w. w.id == id) f rows)
change-IsSingle uuid rows id f {u} keep e less s = record {
  single =
      λ h. ground (arith, s.single h, in_flight-update_first f id keep h rows {u = u} e, less h);
  ids = IdsFrom-update_first f id keep uuid 0 rows s.ids;
}

-- A request that passed the checks found no upgrade in flight.
created :
    {A : Type 0} (x y z : Bool) (o : Option HostUpgrade) {p q : A}
    → (if x then err downgrade else if not y then err artifact_mismatch else elim o [
      | some busy ↦ err upgrade_pending
      | none ↦ if z then err integrity_error else ok p
    ])
      ≡ ok q
    → (o ≡ none) × (p ≡ q)
created x y z none h = ground arith
created x y z (some w) h = ground arith

create_new-IsSingle :
    (v : Versions) (env : Env) (u : UpgradeIn) (host : Host) (db : Db) {row : HostUpgrade}
    {db' : Db}
    → create_new v env u host db ≡ ok (row, db')
    → IsSingle env.uuid db.upgrades
    → IsSingle env.uuid db'.upgrades
unfolding create_new
create_new-IsSingle v env u host db {row} {db'} h s =
    let new = new_upgrade env host u (env.uuid (length db.upgrades)) in
    let (e, same) =
      created (is_downgrade v u.target_version host.agent_version) (artifact_matches env.settings u)
        (any (repeats_request new) db.upgrades) (non_terminal_for_host u.host_id db.upgrades) h in
    let after : add_upgrade new db ≡ db' = cc same in
    subst (λ d. IsSingle env.uuid d.upgrades) after
      (add-IsSingle env.uuid db.upgrades new s (in_flight-none u.host_id db.upgrades e) refl)

-- A repeated request changes nothing.
accepted :
    (db : Db) (x : Bool) (o : Option HostUpgrade) (k : Result UpgradeError (HostUpgrade × Db))
    {row : HostUpgrade} {db' : Db}
    → (if x then err host_decommissioned else elim o [ some w ↦ ok (w, db) | none ↦ k ])
      ≡ ok (row, db')
    → (db ≡ db') ⊎ (k ≡ ok (row, db'))
accepted db true o k h = cc h
accepted db false none k h = inr h
accepted db false (some w) k h = inl (cc h)

create_for-IsSingle :
    (v : Versions) (env : Env) (u : UpgradeIn) (db : Db) (host : Host) {row : HostUpgrade}
    {db' : Db}
    → create_for v env u db host ≡ ok (row, db')
    → IsSingle env.uuid db.upgrades
    → IsSingle env.uuid db'.upgrades
unfolding create_for
create_for-IsSingle v env u db host {row} {db'} h s =
    elim (accepted db (is_decommissioned host.lifecycle_state)
      (upgrade_by_request u.host_id u.request_id db.upgrades) (create_new v env u host db) h) [
        | inl same ↦ subst (λ d. IsSingle env.uuid d.upgrades) same s
        | inr new ↦ create_new-IsSingle v env u host db new s
      ]

create_upgrade-IsSingle :
    (v : Versions) (env : Env) (u : UpgradeIn) (db : Db) {row : HostUpgrade} {db' : Db}
    → create_upgrade v env u db ≡ ok (row, db')
    → IsSingle env.uuid db.upgrades
    → IsSingle env.uuid db'.upgrades
unfolding create_upgrade
create_upgrade-IsSingle v env u db h s =
    let (host, known, rest) =
      >>=-eq-ok (found (host_by_id u.host_id db.hosts) host_not_found) (create_for v env u db) h in
    create_for-IsSingle v env u db host rest s

Transition-open : {a b : UpgradeState} → Transition a b → is_terminal a ≡ false
Transition-open (forward a b t s o) = t
Transition-open (fail a t) = t

update-IsSingle :
    (env : Env) (host_id upgrade_id : ℕ) (report : StatusReport) (db : Db) {u' : HostUpgrade}
    {db' : Db}
    → update_upgrade_status env host_id upgrade_id report db ≡ ok (u', db')
    → IsSingle env.uuid db.upgrades
    → IsSingle env.uuid db'.upgrades
update-IsSingle env host_id upgrade_id report db h s =
    let (u, known, own, t, new, rows, confirmed) =
      update_upgrade_status-Transition env host_id upgrade_id report db h in
    let known' : upgrade_by_id u.id db.upgrades ≡ some u =
      rw (found_by_id upgrade_id db.upgrades known) known in
    let is_open : is_terminal u.state ≡ false = Transition-open t in
    subst (IsSingle env.uuid) (sym rows) (
      change-IsSingle env.uuid db.upgrades u.id (advance env.now report) (λ w. refl) known'
        (λ h' f. ground (arith, is_open)) s)

as_rolled_back-id : (now : ℕ) (w : HostUpgrade) → (as_rolled_back now w).id ≡ w.id
as_rolled_back-id now w = ground arith

as_rolled_back-closed :
    (now : ℕ) (h : ℕ) (w : HostUpgrade) → is_active_for h (as_rolled_back now w) ≡ false
as_rolled_back-closed now h w = ground arith

as_rolled_back-host : (now : ℕ) (w : HostUpgrade) → (as_rolled_back now w).host_id ≡ w.host_id
as_rolled_back-host now w = ground arith

rollback_passed :
    {A : Type 0} (x y : Bool) {p q : A}
    → (if x then err host_decommissioned else if y then err upgrade_pending else ok p) ≡ ok q
    → (y ≡ false) × (p ≡ q)
rollback_passed x y h = ground arith

blocked_same :
    (id : ℕ) (o : Option HostUpgrade) {w : HostUpgrade}
    → o ≡ some w
    → blocks id o ≡ false
    → w.id ≡ id
blocked_same id none e f = cc e
blocked_same id (some x) {w} e f = ground (arith, ==_iff x.id id)

-- Once the original is rolled back, its host has none in flight.
emptied :
    (now : ℕ) (rows : List HostUpgrade) (original : HostUpgrade)
    → HasKey rows
    → upgrade_by_id original.id rows ≡ some original
    → in_flight original.host_id rows ≤ 1
    → blocks original.id (non_terminal_for_host original.host_id rows) ≡ false
    → in_flight original.host_id (update_first (λ w. w.id == original.id) (as_rolled_back now) rows)
      ≡ 0
emptied now rows original k known le free =
    let moved =
      in_flight-update_first (as_rolled_back now) original.id (as_rolled_back-id now)
        original.host_id rows {u = original} known in
    let closed = as_rolled_back-closed now original.host_id original in
    elim (Option-cases (non_terminal_for_host original.host_id rows)) [
      | inl e ↦ ground (arith, in_flight-none original.host_id rows e, moved, closed)
      | inr (w, e) ↦
          let (by_id, is_active) = found_active original.host_id rows k e in
          let same_id : w.id ≡ original.id =
            blocked_same original.id (non_terminal_for_host original.host_id rows) e free in
          let w_known : some w ≡ some original =
            sym (subst (λ i. upgrade_by_id i rows ≡ some w) same_id by_id) ∙ known in
          let same_row : w ≡ original = cc w_known in
          let counted : is_active_for original.host_id original ≡ true =
            subst (λ v. is_active_for original.host_id v ≡ true) same_row is_active in
          ground (arith, moved, closed, counted, le)
    ]

rollback_on-IsSingle :
    (url_file_name : String → Option String) (env : Env) (by : String) (original : HostUpgrade)
    (version : String) (artifact : String × String) (db : Db) (host : Host) {row : HostUpgrade}
    {db' : Db}
    → ((i j : ℕ) → env.uuid i ≡ env.uuid j → i ≡ j)
    → upgrade_by_id original.id db.upgrades ≡ some original
    → rollback_on url_file_name env by original version artifact db host ≡ ok (row, db')
    → IsSingle env.uuid db.upgrades
    → IsSingle env.uuid db'.upgrades
unfolding rollback_on
rollback_on-IsSingle url_file_name env by original version artifact db host {row} {db'} inj known h
      s =
    let (free, same) =
      rollback_passed (is_decommissioned host.lifecycle_state)
        (blocks original.id (non_terminal_for_host original.host_id db.upgrades)) h in
    let row' =
      rollback_row url_file_name env host original version artifact by
        (env.uuid (length db.upgrades)) in
    let closed = update_first (λ w. w.id == original.id) (as_rolled_back env.now) db.upgrades in
    let keep = as_rolled_back-id env.now in
    let old =
      change-IsSingle env.uuid db.upgrades original.id (as_rolled_back env.now) keep known
        (λ h' f. as_rolled_back-closed env.now h' original) s in
    let after : replace_original env.now original row' db ≡ db' = cc same in
    subst (λ d. IsSingle env.uuid d.upgrades) after
      (add-IsSingle env.uuid closed row' old
        (emptied env.now db.upgrades original (IdsFrom-HasKey env.uuid inj 0 db.upgrades s.ids)
          known (s.single original.host_id) free)
        (ap env.uuid (
          sym
            (length-update_first (λ w. w.id == original.id) (as_rolled_back env.now) db.upgrades))))

rollback-IsSingle :
    (url_file_name : String → Option String) (env : Env) (upgrade_id : ℕ) (by : String) (db : Db)
    {row : HostUpgrade} {db' : Db}
    → ((i j : ℕ) → env.uuid i ≡ env.uuid j → i ≡ j)
    → rollback_upgrade url_file_name env upgrade_id by db ≡ ok (row, db')
    → IsSingle env.uuid db.upgrades
    → IsSingle env.uuid db'.upgrades
unfolding rollback_upgrade rollback_found
rollback-IsSingle url_file_name env upgrade_id by db inj h s =
    let (u, found_u, rest) =
      >>=-eq-ok (found (upgrade_by_id upgrade_id db.upgrades) upgrade_not_found)
        (rollback_found url_file_name env by db) h in
    let (version, _, rest1) =
      >>=-eq-ok (found (previous_of u.previous_version) no_previous_version)
        (λ version.
          found (previous_artifact u.previous_artifact_url u.previous_artifact_sha256)
            no_previous_artifact
          >>= λ artifact.
              found (host_by_id u.host_id db.hosts) host_not_found
              >>= rollback_on url_file_name env by u version artifact db)
        rest in
    let (artifact, _, rest2) =
      >>=-eq-ok
        (found (previous_artifact u.previous_artifact_url u.previous_artifact_sha256)
          no_previous_artifact)
        (λ artifact.
          found (host_by_id u.host_id db.hosts) host_not_found
          >>= rollback_on url_file_name env by u version artifact db)
        rest1 in
    let (host, _, rest3) =
      >>=-eq-ok (found (host_by_id u.host_id db.hosts) host_not_found)
        (rollback_on url_file_name env by u version artifact db) rest2 in
    let known = found-ok (upgrade_by_id upgrade_id db.upgrades) upgrade_not_found found_u in
    rollback_on-IsSingle url_file_name env by u version artifact db host inj
      (rw (found_by_id upgrade_id db.upgrades known) known) rest3 s

fail_active-IsSingle :
    (uuid : ℕ → ℕ) (now host_id : ℕ) (reason : String) (db : Db)
    → IsSingle uuid db.upgrades
    → IsSingle uuid (fail_active_for_host now host_id reason db).upgrades
unfolding fail_active_for_host
fail_active-IsSingle uuid now host_id reason db s = record {
  single = λ h. ground (arith, in_flight-update host_id now reason h db.upgrades, s.single h);
  ids = IdsFrom-update (is_active_for host_id) now reason uuid 0 db.upgrades s.ids;
}

-- One call of the upgrade service, which succeeds and commits. All calls draw ids from one
-- generator; each has its own clock reading and settings.
pub data Step (v : Versions) (url_file_name : String → Option String) (uuid : ℕ → ℕ)
    : Db → Db → Type 0 where
  created_one :
      (env : Env) (u : UpgradeIn) (db : Db) {row : HostUpgrade} {db' : Db}
      → env.uuid ≡ uuid
      → create_upgrade v env u db ≡ ok (row, db')
      → Step v url_file_name uuid db db'
  reported :
      (env : Env) (host_id upgrade_id : ℕ) (report : StatusReport) (db : Db) {row : HostUpgrade}
      {db' : Db}
      → env.uuid ≡ uuid
      → update_upgrade_status env host_id upgrade_id report db ≡ ok (row, db')
      → Step v url_file_name uuid db db'
  rolled :
      (env : Env) (upgrade_id : ℕ) (by : String) (db : Db) {row : HostUpgrade} {db' : Db}
      → env.uuid ≡ uuid
      → rollback_upgrade url_file_name env upgrade_id by db ≡ ok (row, db')
      → Step v url_file_name uuid db db'
  abandoned :
      (now host_id : ℕ) (reason : String) (db : Db)
      → Step v url_file_name uuid db (fail_active_for_host now host_id reason db)

pub data Steps (v : Versions) (url_file_name : String → Option String) (uuid : ℕ → ℕ)
    : Db → Db → Type 0 where
  stop : (db : Db) → Steps v url_file_name uuid db db
  step :
      {db mid db' : Db}
      → Step v url_file_name uuid db mid
      → Steps v url_file_name uuid mid db'
      → Steps v url_file_name uuid db db'

module _ (v : Versions) (url_file_name : String → Option String) (uuid : ℕ → ℕ)
    (inj : (i j : ℕ) → uuid i ≡ uuid j → i ≡ j) where
  Step-IsSingle :
      {db db' : Db}
      → Step v url_file_name uuid db db'
      → IsSingle uuid db.upgrades
      → IsSingle uuid db'.upgrades
  Step-IsSingle {db = a} {db' = b} (created_one env u db e h) s =
      subst (λ g. IsSingle g b.upgrades) e
        (create_upgrade-IsSingle v env u db h (subst (λ g. IsSingle g a.upgrades) (sym e) s))
  Step-IsSingle {db = a} {db' = b} (reported env host_id id report db e h) s =
      subst (λ g. IsSingle g b.upgrades) e
        (update-IsSingle env host_id id report db h (subst (λ g. IsSingle g a.upgrades) (sym e) s))
  Step-IsSingle {db = a} {db' = b} (rolled env id by db e h) s =
      subst (λ g. IsSingle g b.upgrades) e
        (rollback-IsSingle url_file_name env id by db
          (subst (λ g. (i j : ℕ) → g i ≡ g j → i ≡ j) (sym e) inj) h
          (subst (λ g. IsSingle g a.upgrades) (sym e) s))
  Step-IsSingle (abandoned now host_id reason db) s =
      fail_active-IsSingle uuid now host_id reason db s

  -- From a database in which a host never has more than one upgrade that is not terminal, and whose
  -- upgrades have the ids that the generator gave, every sequence of successful calls that create,
  -- report on, roll back or abandon upgrades leads to one of which both hold again, if the
  -- generator gives no id twice.
  pub Steps-IsSingle :
      {db db' : Db}
      → Steps v url_file_name uuid db db'
      → IsSingle uuid db.upgrades
      → IsSingle uuid db'.upgrades
  Steps-IsSingle (stop db) s = s
  Steps-IsSingle (step one rest) s = Steps-IsSingle rest (Step-IsSingle one s)
