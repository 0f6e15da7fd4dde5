-- ===== src/Agent/Reserve/History.antt =====
-- Sequences of commands on one reservation file, and a reservation undone.
use port_forge.Prelude.{
  ℕ, String, Option, none, some, List, [], ◌∷◌, ◌++◌, Bool, true, false, ◌==◌, ◌≡◌, ◌≢◌, refl, sym,
  ap, ◌∙◌, arith, inl, inr, find?, any, update_first, Bool-cases, eq_iff, normalize, codes_eq_iff,
}
use port_forge.Agent.Records.{Listener, Reservation, Claim, create}
use port_forge.Central.Vocabulary.{Protocol, protocol_eq_refl}
use port_forge.Agent.Evaluate.{is_for, find_discovered}
use port_forge.Agent.Reserve.{
  Run, reserve, reserve_over, reserve_unclaimed, refresh, same_project, find_exact, without,
  release, release_over, release_by_id, release_id_over, ReserveResult, reserve_success,
}
use port_forge.Agent.Reserve.Ownership.{HasIds}
use port_forge.Agent.Reserve.Slots.{
  HasSlots, find-any, HasSlots-append, HasIds-append, HasSlots-update_first, HasIds-update_first,
  HasSlots-without, HasIds-without,
}

-- No binding is reserved twice, and no id is used twice.
abbrev pub IsStore : List Reservation → Type 0
IsStore rows = HasSlots rows × HasIds rows

pub append-IsStore :
    (run : Run) (c : Claim) (rows : List Reservation)
    → any (λ w. w.reservation_id == run.new_id) rows ≡ false
    → find_exact rows run.host_id c.port c.protocol ≡ none
    → IsStore rows
    → IsStore (rows ++ create run.host_id c run.new_id run.now ∷ [])
append-IsStore run c rows new free s =
    let r = create run.host_id c run.new_id run.now in
    (
      HasSlots-append rows r s.0 (find-any (is_for run.host_id c.port c.protocol) rows free),
      HasIds-append rows r s.1 new,
    )

module _ (run : Run) (c : Claim) (rows : List Reservation)
    (new : any (λ w. w.reservation_id == run.new_id) rows ≡ false) where
  unclaimed-IsStore :
      (o : Option Listener)
      → find_exact rows run.host_id c.port c.protocol ≡ none
      → IsStore rows
      → IsStore (reserve_unclaimed run c rows o).rows
  unfolding reserve_unclaimed
  unclaimed-IsStore none free s = append-IsStore run c rows new free s
  unclaimed-IsStore (some d) free s = elim (Bool-cases (same_project d.project_name c.project)) [
    | inl h ↦ rw h (append-IsStore run c rows new free s)
    | inr h ↦ rw h s
  ]

  over-IsStore :
      (o : Option Reservation)
      → find_exact rows run.host_id c.port c.protocol ≡ o
      → IsStore rows
      → IsStore (reserve_over run c rows o).rows
  unfolding reserve_over
  over-IsStore none e s = unclaimed-IsStore (find_discovered run.discovered c.port c.protocol) e s
  over-IsStore (some x) e s = elim (Bool-cases (same_project (some x.project) c.project)) [
    | inl h ↦ rw h (
      HasSlots-update_first c run.now (is_for run.host_id c.port c.protocol) rows s.0,
      HasIds-update_first c run.now (is_for run.host_id c.port c.protocol) rows s.1,
    )
    | inr h ↦ rw h s
  ]

pub reserve-IsStore :
    (run : Run) (c : Claim) (rows : List Reservation)
    → any (λ w. w.reservation_id == run.new_id) rows ≡ false
    → IsStore rows
    → IsStore (reserve run c rows).rows
unfolding reserve
reserve-IsStore run c rows new s =
    over-IsStore run c rows new (find_exact rows run.host_id c.port c.protocol) refl s

without-IsStore : (id : ℕ) (rows : List Reservation) → IsStore rows → IsStore (without id rows)
without-IsStore id rows s = (HasSlots-without id rows s.0, HasIds-without id rows s.1)

release_over-IsStore :
    (project : String) (rows : List Reservation) (o : Option Reservation)
    → IsStore rows
    → IsStore (release_over project rows o).rows
unfolding release_over
release_over-IsStore project rows none s = s
release_over-IsStore project rows (some x) s =
    elim (Bool-cases (same_project (some x.project) project)) [
      | inl h ↦ rw h (without-IsStore x.reservation_id rows s)
      | inr h ↦ rw h s
    ]

release_id_over-IsStore :
    (id : ℕ) (project : Option String) (rows : List Reservation) (o : Option Reservation)
    → IsStore rows
    → IsStore (release_id_over id project rows o).rows
unfolding release_id_over
release_id_over-IsStore id project rows none s = s
release_id_over-IsStore id none rows (some x) s = without-IsStore id rows s
release_id_over-IsStore id (some project) rows (some x) s =
    elim (Bool-cases (same_project (some x.project) project)) [
      | inl h ↦ rw h (without-IsStore id rows s)
      | inr h ↦ rw h s
    ]

-- One command on the file; a new id is one that no row of the file has.
pub data Command : List Reservation → List Reservation → Type 0 where
  reserving :
      (run : Run) (c : Claim) (rows : List Reservation)
      → any (λ w. w.reservation_id == run.new_id) rows ≡ false
      → Command rows (reserve run c rows).rows
  releasing :
      (host_id : String) (port : ℕ) (project : String) (protocol : Protocol)
      (rows : List Reservation)
      → Command rows (release host_id port project protocol rows).rows
  releasing_id :
      (id : ℕ) (project : Option String) (rows : List Reservation)
      → Command rows (release_by_id id project rows).rows

pub data Commands : List Reservation → List Reservation → Type 0 where
  stop : (rows : List Reservation) → Commands rows rows
  next :
      {rows mid rows' : List Reservation}
      → Command rows mid
      → Commands mid rows'
      → Commands rows rows'

Command-IsStore :
    {rows rows' : List Reservation} → Command rows rows' → IsStore rows → IsStore rows'
unfolding release release_by_id
Command-IsStore (reserving run c rows new) s = reserve-IsStore run c rows new s
Command-IsStore (releasing host_id port project protocol rows) s =
    release_over-IsStore project rows (find_exact rows host_id port protocol) s
Command-IsStore (releasing_id id project rows) s =
    release_id_over-IsStore id project rows (find? (λ r. r.reservation_id == id) rows) s

-- In a file where no binding and no id stands twice, none does after any sequence of commands that
-- reserve, release or release by id, successful or refused, if each draws an id that the file does
-- not have.
pub Commands-IsStore :
    {rows rows' : List Reservation} → Commands rows rows' → IsStore rows → IsStore rows'
Commands-IsStore (stop rows) s = s
Commands-IsStore (next one rest) s = Commands-IsStore rest (Command-IsStore one s)

pub is_for-created :
    (run : Run) (c : Claim)
    → is_for run.host_id c.port c.protocol (create run.host_id c run.new_id run.now) ≡ true
is_for-created run c = ground (arith, eq_iff run.host_id run.host_id, protocol_eq_refl c.protocol)

pub find-append :
    (p : Reservation → Bool) (rows : List Reservation) (r : Reservation)
    → find? p rows ≡ none
    → p r ≡ true
    → find? p (rows ++ r ∷ []) ≡ some r
find-append p [] r e h = rw h refl
find-append p (x ∷ rows) r e h = ground (arith, find-append p rows r)

without-append :
    (rows : List Reservation) (r : Reservation)
    → any (λ w. w.reservation_id == r.reservation_id) rows ≡ false
    → without r.reservation_id (rows ++ r ∷ []) ≡ rows
without-append [] r h = ground arith
without-append (x ∷ rows) r h = ground (arith, without-append rows r)

module _ (run : Run) (c : Claim) (rows : List Reservation) where
  -- What a reservation that was made leaves.
  abbrev IsMade : ReserveResult → Type 0
  IsMade result =
      (r : Reservation) × (result.reservation ≡ some r)
      × (find_exact result.rows run.host_id c.port c.protocol ≡ some r)

  unclaimed-IsMade :
      (o : Option Listener)
      → find_exact rows run.host_id c.port c.protocol ≡ none
      → reserve_success (reserve_unclaimed run c rows o).outcome ≡ true
      → (reserve_unclaimed run c rows o).reservation
          ≡ some (create run.host_id c run.new_id run.now)
        × ((reserve_unclaimed run c rows o).rows
            ≡ rows ++ create run.host_id c run.new_id run.now ∷ [])
  unfolding reserve_unclaimed
  unclaimed-IsMade none free h = (refl, refl)
  unclaimed-IsMade (some d) free h = ground arith

find-update_first :
    (p : Reservation → Bool) (f : Reservation → Reservation) (rows : List Reservation)
    {x : Reservation}
    → ((w : Reservation) → p (f w) ≡ p w)
    → find? p rows ≡ some x
    → find? p (update_first p f rows) ≡ some (f x)
find-update_first p f [] keep e = absurd (cc e)
find-update_first p f (r ∷ rows) {x} keep e =
    ground (arith, keep r, find-update_first p f rows {x = x} keep)

module _ (run : Run) (c : Claim) (rows : List Reservation) where
  over-IsMade :
      (o : Option Reservation)
      → find_exact rows run.host_id c.port c.protocol ≡ o
      → reserve_success (reserve_over run c rows o).outcome ≡ true
      → IsMade run c rows (reserve_over run c rows o)
  unfolding reserve_over
  over-IsMade none e h =
      let o = find_discovered run.discovered c.port c.protocol in
      let (made, after) = unclaimed-IsMade run c rows o e h in
      let new = create run.host_id c run.new_id run.now in
      (
        new,
        made,
        rw after
            (find-append (is_for run.host_id c.port c.protocol) rows new e (is_for-created run c)),
      )
  over-IsMade (some x) e h = elim (Bool-cases (same_project (some x.project) c.project)) [
    | inl m ↦ rw m (
      refresh c run.now x,
      refl,
      find-update_first (is_for run.host_id c.port c.protocol) (refresh c run.now) rows (λ w. refl)
          e,
    )
    | inr m ↦ ground (arith, m)
  ]

-- After a reservation that succeeds, the file's first reservation for the binding is the one that
-- the command returned.
pub reserve-found :
    (run : Run) (c : Claim) (rows : List Reservation)
    → reserve_success (reserve run c rows).outcome ≡ true
    → (r : Reservation) × ((reserve run c rows).reservation ≡ some r)
      × (find_exact (reserve run c rows).rows run.host_id c.port c.protocol ≡ some r)
unfolding reserve
reserve-found run c rows h =
    over-IsMade run c rows (find_exact rows run.host_id c.port c.protocol) refl h

own_project :
    (r : Reservation) (p : String) → r.project ≡ p → p ≢ "" → same_project (some r.project) p ≡ true
unfolding same_project
own_project r p e n = ground (
  arith,
  eq_iff r.project "",
  eq_iff p "",
  n,
  e,
  codes_eq_iff (normalize r.project) (normalize p),
  ap normalize e,
)

released_made :
    (run : Run) (c : Claim) (rows : List Reservation) (result : ReserveResult)
    → c.project ≢ ""
    → any (λ w. w.reservation_id == run.new_id) rows ≡ false
    → find_exact rows run.host_id c.port c.protocol ≡ none
    → result.rows ≡ rows ++ create run.host_id c run.new_id run.now ∷ []
    → (release run.host_id c.port c.project c.protocol result.rows).rows ≡ rows
unfolding release release_over
released_made run c rows result named new free after =
    let r = create run.host_id c run.new_id run.now in
    rw
      (
        after,
        find-append (is_for run.host_id c.port c.protocol) rows r free (is_for-created run c),
        own_project r c.project refl named,
      )
      (without-append rows r new)

-- A reservation of a binding that was not reserved, if it succeeds, is undone by a release by the
-- same project: the file is as it was. The project's name is not empty, and the id drawn is new.
pub release-reserve :
    (run : Run) (c : Claim) (rows : List Reservation)
    → c.project ≢ ""
    → any (λ w. w.reservation_id == run.new_id) rows ≡ false
    → find_exact rows run.host_id c.port c.protocol ≡ none
    → reserve_success (reserve run c rows).outcome ≡ true
    → (release run.host_id c.port c.project c.protocol (reserve run c rows).rows).rows ≡ rows
unfolding reserve reserve_over
release-reserve run c rows named new free h =
    let o = find_discovered run.discovered c.port c.protocol in
    let result : reserve_over run c rows (find_exact rows run.host_id c.port c.protocol)
        ≡ reserve_unclaimed run c rows o =
      ap (reserve_over run c rows) free in
    let (_, after) =
      unclaimed-IsMade run c rows o free (sym (ap (λ t. reserve_success t.outcome) result) ∙ h) in
    released_made run c rows
      (reserve_over run c rows (find_exact rows run.host_id c.port c.protocol)) named new free
      (ap (λ t. t.rows) result ∙ after)
