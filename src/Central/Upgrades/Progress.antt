-- ===== src/Central/Upgrades/Progress.antt =====
-- The state machine of an upgrade, as an agent's reports drive it.
use port_forge.Prelude.{
  ℕ, ◌+◌, ◌-◌, ◌≤◌, ◌<◌, Option, none, some, List, [], ◌∷◌, ap, ◌∙◌, Bool, true, false, not, ◌==◌,
  ◌≡◌, ◌≢◌, ◌⊎◌, inl, inr, refl, arith, opt_str_eq_iff, ==_iff, if◌then◌else◌, update_first,
}
use port_forge.Prelude.Result.{Result, ok, err, >>=-eq-ok}
use port_forge.Central.Vocabulary.{
  UpgradeState, approved, waiting_for_agent, downloading, verifying, installing, restarting,
  verifying_health, succeeded, failed, rolled_back,
}
use port_forge.Central.Tables.{HostUpgrade, Db, Env}
use port_forge.Central.Ingestion.Lookup.{mapped, find?-update_first_same}
use port_forge.Central.Upgrades.{
  is_terminal, order_of, is_agent_settable, StatusReport, check_report, update_found,
  update_upgrade_status, upgrade_by_id, advance, apply_report, moves_forward, is_confirmed, found,
  UpgradeError, upgrade_not_found, not_owner, already_terminal, not_settable, not_forward,
  version_unconfirmed,
}

-- The transitions that an agent may report.
pub data Transition : UpgradeState → UpgradeState → Type 0 where
  forward :
      (a b : UpgradeState)
      → is_terminal a ≡ false
      → is_agent_settable b ≡ true
      → order_of a < order_of b
      → Transition a b
  fail : (a : UpgradeState) → is_terminal a ≡ false → Transition a failed

checked-Transition :
    (a b : UpgradeState)
    → is_terminal a ≡ false
    → is_agent_settable b ≡ true
    → moves_forward a b ≡ true
    → Transition a b
checked-Transition a failed t s m = fail a t
checked-Transition a downloading t s m = forward a downloading t s (ground arith)
checked-Transition a verifying t s m = forward a verifying t s (ground arith)
checked-Transition a installing t s m = forward a installing t s (ground arith)
checked-Transition a restarting t s m = forward a restarting t s (ground arith)
checked-Transition a verifying_health t s m = forward a verifying_health t s (ground arith)
checked-Transition a succeeded t s m = forward a succeeded t s (ground arith)
checked-Transition a approved t s m = absurd (cc s)
checked-Transition a waiting_for_agent t s m = absurd (cc s)
checked-Transition a rolled_back t s m = absurd (cc s)

-- What the checks of a report establish.
record IsChecked (host_id : ℕ) (u : HostUpgrade) (report : StatusReport) : Type 0 where
  pub owner : u.host_id ≡ host_id
  pub open_state : is_terminal u.state ≡ false
  pub settable : is_agent_settable report.new_state ≡ true
  pub forward_moving : moves_forward u.state report.new_state ≡ true
  pub confirmed : is_confirmed u report report.new_state ≡ true

ladder :
    (a b c d e : Bool)
    → (if not a
        then err not_owner
        else if b
        then err already_terminal
        else if not c
        then err not_settable
        else if not d
        then err not_forward
        else if not e
        then err version_unconfirmed
        else ok tt)
      ≡ ok tt
    → (a ≡ true) × (b ≡ false) × (c ≡ true) × (d ≡ true) × (e ≡ true)
ladder a b c d e h = ground arith

check_report-IsChecked :
    (host_id : ℕ) (u : HostUpgrade) (report : StatusReport)
    → check_report host_id u report ≡ ok tt
    → IsChecked host_id u report
unfolding check_report
check_report-IsChecked host_id u report h =
    let (own, terminal, settable, forward_moving, confirmed) =
      ladder (u.host_id == host_id) (is_terminal u.state) (is_agent_settable report.new_state)
        (moves_forward u.state report.new_state) (is_confirmed u report report.new_state) h in
    record {
      owner = (==_iff u.host_id host_id).0 own;
      open_state = terminal;
      settable = settable;
      forward_moving = forward_moving;
      confirmed = confirmed;
    }

-- A success that is confirmed names the target version.
confirmed_version :
    (u : HostUpgrade) (report : StatusReport) (s : UpgradeState)
    → is_confirmed u report s ≡ true
    → (s ≢ succeeded) ⊎ (report.reported_version ≡ some u.target_version)
confirmed_version u report succeeded h =
    inr ((opt_str_eq_iff report.reported_version (some u.target_version)).0 (ground arith))
confirmed_version u report approved h = inl (ground arith)
confirmed_version u report waiting_for_agent h = inl (ground arith)
confirmed_version u report downloading h = inl (ground arith)
confirmed_version u report verifying h = inl (ground arith)
confirmed_version u report installing h = inl (ground arith)
confirmed_version u report restarting h = inl (ground arith)
confirmed_version u report verifying_health h = inl (ground arith)
confirmed_version u report failed h = inl (ground arith)
confirmed_version u report rolled_back h = inl (ground arith)

pub found-ok :
    {A : Type 0} (o : Option A) (e : UpgradeError) {a : A} → found o e ≡ ok a → o ≡ some a
found-ok none e h = cc
found-ok (some b) e h = cc

-- An accepted report is about an upgrade of the reporting host that was not terminal; it moves the
-- upgrade, and only it in its table, along a transition of the state machine to the reported state;
-- and if it reports success, the version that the agent says it runs is the target version.
pub update_upgrade_status-Transition :
    (env : Env) (host_id upgrade_id : ℕ) (report : StatusReport) (db : Db) {u' : HostUpgrade}
    {db' : Db}
    → update_upgrade_status env host_id upgrade_id report db ≡ ok (u', db')
    → (u : HostUpgrade) × (upgrade_by_id upgrade_id db.upgrades ≡ some u)
      × (u.host_id ≡ host_id)
      × Transition u.state u'.state
      × (u'.state ≡ report.new_state)
      × (db'.upgrades ≡ update_first (λ w. w.id == u.id) (advance env.now report) db.upgrades)
      × ((report.new_state ≢ succeeded) ⊎ (report.reported_version ≡ some u.target_version))
unfolding update_upgrade_status update_found apply_report
update_upgrade_status-Transition env host_id upgrade_id report db {u'} {db'} h =
    let (u, known, rest) =
      >>=-eq-ok (found (upgrade_by_id upgrade_id db.upgrades) upgrade_not_found)
        (update_found env host_id report db) h in
    let (_, passed, done) =
      >>=-eq-ok (check_report host_id u report) (λ _. ok (apply_report env host_id report u db))
        rest in
    let c = check_report-IsChecked host_id u report passed in
    let e : u' ≡ advance env.now report u = cc done in
    (
      u,
      found-ok (upgrade_by_id upgrade_id db.upgrades) upgrade_not_found known,
      c.owner,
      rw e (checked-Transition u.state report.new_state c.open_state c.settable c.forward_moving),
      rw e refl,
      ground arith,
      confirmed_version u report report.new_state c.confirmed,
    )

-- A report as it arrives: when, and from which host.
pub record Delivered : Type 0 where
  pub env : Env
  pub host_id : ℕ
  pub status : StatusReport

abbrev tables_after : Db → Result UpgradeError (HostUpgrade × Db) → Db
tables_after db (ok r) = r.1
tables_after db (err e) = db

abbrev counted : Result UpgradeError (HostUpgrade × Db) → ℕ
counted (ok r) = 1
counted (err e) = 0

-- How many of the reports on an upgrade are accepted, one after the other; a refused one is rolled
-- back.
unfoldable pub accepted_reports : ℕ → List Delivered → Db → ℕ
accepted_reports upgrade_id [] db = 0
accepted_reports upgrade_id (d ∷ ds) db =
    let r = update_upgrade_status d.env d.host_id upgrade_id d.status db in
    counted r + accepted_reports upgrade_id ds (tables_after db r)

-- How many reports an upgrade can still take.
abbrev remaining : UpgradeState → ℕ
remaining succeeded = 0
remaining failed = 0
remaining rolled_back = 0
remaining approved = 6
remaining waiting_for_agent = 6
remaining s = 8 - order_of s

abbrev remaining_of : Option HostUpgrade → ℕ
remaining_of none = 0
remaining_of (some u) = remaining u.state

Transition-remaining : {a b : UpgradeState} → Transition a b → remaining b < remaining a
Transition-remaining (forward a downloading t s o) = ground arith
Transition-remaining (forward a verifying t s o) = ground arith
Transition-remaining (forward a installing t s o) = ground arith
Transition-remaining (forward a restarting t s o) = ground arith
Transition-remaining (forward a verifying_health t s o) = ground arith
Transition-remaining (forward a succeeded t s o) = ground arith
Transition-remaining (forward a failed t s o) = ground arith
Transition-remaining (forward a approved t s o) = absurd (cc s)
Transition-remaining (forward a waiting_for_agent t s o) = absurd (cc s)
Transition-remaining (forward a rolled_back t s o) = absurd (cc s)
Transition-remaining (fail a t) = ground arith

remaining-le : (s : UpgradeState) → remaining s ≤ 6
remaining-le s = ground arith

remaining_of-le : (o : Option HostUpgrade) → remaining_of o ≤ 6
remaining_of-le none = omega arith
remaining_of-le (some u) = remaining-le u.state

upgrade_by_id-id :
    (upgrade_id : ℕ) (rows : List HostUpgrade) {u : HostUpgrade}
    → upgrade_by_id upgrade_id rows ≡ some u
    → u.id ≡ upgrade_id
upgrade_by_id-id upgrade_id [] h = cc
upgrade_by_id-id upgrade_id (x ∷ rows) {u} h =
    ground (arith, ==_iff x.id upgrade_id, upgrade_by_id-id upgrade_id rows {u = u})

upgrade_by_id-advance :
    (now upgrade_id : ℕ) (report : StatusReport) (rows : List HostUpgrade) {u : HostUpgrade}
    → upgrade_by_id upgrade_id rows ≡ some u
    → upgrade_by_id upgrade_id (update_first (λ w. w.id == u.id) (advance now report) rows)
      ≡ some (advance now report u)
upgrade_by_id-advance now upgrade_id report rows {u} h =
    ap (λ i. upgrade_by_id upgrade_id (update_first (λ w. w.id == i) (advance now report) rows))
      (upgrade_by_id-id upgrade_id rows {u = u} h)
    ∙ find?-update_first_same (λ w. w.id == upgrade_id) (λ w. w.id == upgrade_id)
        (advance now report) rows (λ x. refl) (λ x. refl)
    ∙ ap (mapped (advance now report)) h

accepted-remaining :
    (upgrade_id : ℕ) (ds : List Delivered) (db : Db)
    → accepted_reports upgrade_id ds db ≤ remaining_of (upgrade_by_id upgrade_id db.upgrades)
unfolding accepted_reports
accepted-remaining upgrade_id [] db = omega arith
accepted-remaining upgrade_id (d ∷ ds) db =
    for_answer (λ after. accepted-remaining upgrade_id ds after)
      (update_upgrade_status d.env d.host_id upgrade_id d.status db) refl
  where
    for_answer :
        ((after : Db)
          → accepted_reports upgrade_id ds after
            ≤ remaining_of (upgrade_by_id upgrade_id after.upgrades))
        → (r : Result UpgradeError (HostUpgrade × Db))
        → update_upgrade_status d.env d.host_id upgrade_id d.status db ≡ r
        → counted r + accepted_reports upgrade_id ds (tables_after db r)
          ≤ remaining_of (upgrade_by_id upgrade_id db.upgrades)
    for_answer later (err e) h = omega (arith, later db)
    for_answer later (ok (u', db')) h =
        let (u, known, _, moved, reached, rows, _) =
          update_upgrade_status-Transition d.env d.host_id upgrade_id d.status db {u' = u'}
            {db' = db'} h in
        let there : upgrade_by_id upgrade_id db'.upgrades ≡ some (advance d.env.now d.status u) =
          ap (upgrade_by_id upgrade_id) rows
          ∙ upgrade_by_id-advance d.env.now upgrade_id d.status db.upgrades {u = u} known in
        omega (
          arith,
          later db',
          ap remaining_of there,
          ap remaining_of known,
          ap remaining reached,
          Transition-remaining moved,
        )

-- An upgrade, in whatever state it is found, accepts at most six reports, however many arrive, from
-- whichever hosts and in whatever order; the others are refused.
pub accepted_reports_bound :
    (upgrade_id : ℕ) (ds : List Delivered) (db : Db) → accepted_reports upgrade_id ds db ≤ 6
accepted_reports_bound upgrade_id ds db = omega (
  arith,
  accepted-remaining upgrade_id ds db,
  remaining_of-le (upgrade_by_id upgrade_id db.upgrades),
)
