-- ===== src/Agent/Reserve/Ownership.antt =====
-- No project's reservation is changed for another project.
use mathlib.Core.Path.{subst}
use port_forge.Prelude.{
  All, ℕ, suc, String, Option, none, some, List, [], ◌∷◌, ◌++◌, Bool, true, false, not, ◌==◌, ◌≡◌,
  refl, sym, ap, ◌∙◌, arith, inl, inr, find?, select, any, update_first, Bool-cases, normalize,
  codes_eq, codes_eq_iff, if◌then◌else◌,
}
use port_forge.Agent.Records.{Listener, Reservation, Claim, create}
use port_forge.Central.Vocabulary.{Protocol}
use port_forge.Agent.Evaluate.{is_for, find_discovered}
use port_forge.Agent.Reserve.{
  Run, reserve, reserve_over, reserve_unclaimed, refresh, same_project, find_exact, without,
  release, release_over, sync_project_reservations,
}

-- A reservation of another project than `project`, up to case and outer spaces.
abbrev pub is_foreign : String → Reservation → Bool
is_foreign project r = not (codes_eq (normalize r.project) (normalize project))

-- No two rows have one id.
abbrev pub HasIds : List Reservation → Type 0
HasIds [] = Unit
HasIds (r ∷ rows) = (any (λ w. w.reservation_id == r.reservation_id) rows ≡ false) × HasIds rows

same_project-home :
    (r : Reservation) (project : String)
    → same_project (some r.project) project ≡ true
    → is_foreign project r ≡ false
unfolding same_project
same_project-home r project h = ground arith

found_first :
    (p q : Reservation → Bool) (r : Reservation) (rows : List Reservation) {x : Reservation}
    → find? p (r ∷ rows) ≡ some x
    → p r ≡ true
    → q x ≡ false
    → q r ≡ false
found_first p q r rows {x} e h a =
    let same : some r ≡ some x = sym (rw h refl) ∙ e in
    let same_row : r ≡ x = cc same in ap q same_row ∙ a

found_later :
    (p : Reservation → Bool) (r : Reservation) (rows : List Reservation) {x : Reservation}
    → find? p (r ∷ rows) ≡ some x
    → p r ≡ false
    → find? p rows ≡ some x
found_later p r rows e h = ground arith

-- A change of a row that a selection passes over, before and after.
select-update_first :
    (p q : Reservation → Bool) (f : Reservation → Reservation) (rows : List Reservation)
    {x : Reservation}
    → find? p rows ≡ some x
    → q x ≡ false
    → ((w : Reservation) → q (f w) ≡ q w)
    → select q (update_first p f rows) ≡ select q rows
select-update_first p q f [] e a b = cc e
select-update_first p q f (r ∷ rows) {x} e a b = elim (Bool-cases (p r)) [
  | inl h ↦ let dropped = found_first p q r rows e h a in rw (h, b r, dropped) refl
  | inr h ↦ rw h (
      ap (λ l. if q r then r ∷ l else l)
        (select-update_first p q f rows (found_later p r rows e h) a b))
]

pub without-absent :
    (id : ℕ) (rows : List Reservation)
    → any (λ w. w.reservation_id == id) rows ≡ false
    → without id rows ≡ rows
without-absent id [] h = refl
without-absent id (r ∷ rows) h = ground (arith, without-absent id rows)

pub found_id :
    (p : Reservation → Bool) (k : ℕ) (rows : List Reservation) {x : Reservation}
    → any (λ w. w.reservation_id == k) rows ≡ false
    → find? p rows ≡ some x
    → (x.reservation_id == k) ≡ false
found_id p k [] h e = absurd (cc e)
found_id p k (r ∷ rows) {x} h e = ground (arith, found_id p k rows {x = x})

select-without :
    (p q : Reservation → Bool) (rows : List Reservation) {x : Reservation}
    → HasIds rows
    → find? p rows ≡ some x
    → q x ≡ false
    → select q (without x.reservation_id rows) ≡ select q rows
select-without p q [] k e a = cc e
select-without p q (r ∷ rows) {x} k e a = elim (Bool-cases (p r)) [
  | inl h ↦ ground (arith, found_first p q r rows e h a, without-absent r.reservation_id rows k.0)
  | inr h ↦ ground (
    arith,
    select-without p q rows {x = x} k.1 (found_later p r rows e h) a,
    found_id p r.reservation_id rows k.0 (found_later p r rows e h),
  )
]

codes_eq_refl : (s : String) → codes_eq (normalize s) (normalize s) ≡ true
codes_eq_refl s = (codes_eq_iff (normalize s) (normalize s)).1 refl

select-append-none :
    (q : Reservation → Bool) (rows : List Reservation) (r : Reservation)
    → q r ≡ false
    → select q (rows ++ r ∷ []) ≡ select q rows
select-append-none q [] r h = ground arith
select-append-none q (x ∷ rows) r h = ground (arith, select-append-none q rows r h)

module _ (run : Run) (c : Claim) (rows : List Reservation) where
  append_new-foreign :
      select (is_foreign c.project) (rows ++ create run.host_id c run.new_id run.now ∷ [])
      ≡ select (is_foreign c.project) rows
  append_new-foreign =
      select-append-none (is_foreign c.project) rows (create run.host_id c run.new_id run.now)
        (ground (arith, codes_eq_refl c.project))

  reserve_unclaimed-foreign :
      (o : Option Listener)
      → select (is_foreign c.project) (reserve_unclaimed run c rows o).rows
        ≡ select (is_foreign c.project) rows
  unfolding reserve_unclaimed
  reserve_unclaimed-foreign none = append_new-foreign
  reserve_unclaimed-foreign (some d) = ground (arith, append_new-foreign)

  reserve_over-foreign :
      (o : Option Reservation)
      → find_exact rows run.host_id c.port c.protocol ≡ o
      → select (is_foreign c.project) (reserve_over run c rows o).rows
        ≡ select (is_foreign c.project) rows
  unfolding reserve_over
  reserve_over-foreign none e =
      reserve_unclaimed-foreign (find_discovered run.discovered c.port c.protocol)
  reserve_over-foreign (some x) e = elim (Bool-cases (same_project (some x.project) c.project)) [
    | inl h ↦ rw h (
        select-update_first (is_for run.host_id c.port c.protocol) (is_foreign c.project)
          (refresh c run.now) rows e (same_project-home x c.project h) (λ w. refl))
    | inr h ↦ rw h refl
  ]

-- Reserving a port leaves all reservations of other projects as they were and in their order,
-- whether it succeeds or is refused.
pub reserve-foreign :
    (run : Run) (c : Claim) (rows : List Reservation)
    → select (is_foreign c.project) (reserve run c rows).rows ≡ select (is_foreign c.project) rows
unfolding reserve
reserve-foreign run c rows =
    reserve_over-foreign run c rows (find_exact rows run.host_id c.port c.protocol) refl

release_over-foreign :
    (p : Reservation → Bool) (project : String) (rows : List Reservation) (o : Option Reservation)
    → HasIds rows
    → find? p rows ≡ o
    → select (is_foreign project) (release_over project rows o).rows
      ≡ select (is_foreign project) rows
unfolding release_over
release_over-foreign p project rows none k e = refl
release_over-foreign p project rows (some x) k e =
    elim (Bool-cases (same_project (some x.project) project)) [
      | inl h ↦
          rw h (select-without p (is_foreign project) rows k e (same_project-home x project h))
      | inr h ↦ rw h refl
    ]

-- Releasing a port leaves all reservations of other projects as they were and in their order, in a
-- file whose ids are distinct.
pub release-foreign :
    (host_id : String) (port : ℕ) (project : String) (protocol : Protocol) (rows : List Reservation)
    → HasIds rows
    → select (is_foreign project) (release host_id port project protocol rows).rows
      ≡ select (is_foreign project) rows
unfolding release
release-foreign host_id port project protocol rows k =
    release_over-foreign (is_for host_id port protocol) project rows
      (find_exact rows host_id port protocol) k refl

-- Synchronizing a project's file leaves all reservations of other projects as they were and in
-- their order.
pub sync-foreign :
    (runs : ℕ → Run) (n : ℕ) (project : String) (claims : List Claim) (rows : List Reservation)
    → All (λ c. c.project ≡ project) claims
    → select (is_foreign project) (sync_project_reservations runs n claims rows).1
      ≡ select (is_foreign project) rows
unfolding sync_project_reservations
sync-foreign runs n project [] rows h = refl
sync-foreign runs n project (c ∷ claims) rows h =
    sync-foreign runs (suc n) project claims (reserve (runs n) c rows).rows h.1
    ∙ subst (λ p. select (is_foreign p) (reserve (runs n) c rows).rows ≡ select (is_foreign p) rows)
        h.0 (reserve-foreign (runs n) c rows)
