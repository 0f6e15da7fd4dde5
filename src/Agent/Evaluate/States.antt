-- ===== src/Agent/Evaluate/States.antt =====
-- What the state of an evaluated port means.
use mathlib.Core.Path.{subst}
use port_forge.Prelude.{
  ℕ, String, Option, none, some, true, false, ◌≡◌, ◌≢◌, ◌↔◌, ◌⊎◌, inl, inr, arith, refl, Bool-cases,
  normalize, codes_eq_iff, eq_iff,
}
use port_forge.Central.Vocabulary.{
  Protocol, Source, PortState, active, free, reserved, conflict, system_owned,
}
use port_forge.Agent.Records.{Listener, Reservation}
use port_forge.Agent.Evaluate.{evaluate_port, project_matches, is_system}

-- A listener whose project is known, and is the reservation's up to case and outer spaces.
abbrev pub IsOwnedBy : Listener → Reservation → Type 0
IsOwnedBy d r =
    (p : String) × (d.project_name ≡ some p) × (p ≢ "") × (normalize p ≡ normalize r.project)

matches_owned :
    (o : Option String) (project : String)
    → project_matches o project ≡ true
    → (p : String) × (o ≡ some p) × (p ≢ "") × (normalize p ≡ normalize project)
unfolding project_matches
matches_owned none project h = cc h
matches_owned (some p) project h = (
  p,
  refl,
  λ e. ground (arith, eq_iff p "", e),
  (codes_eq_iff (normalize p) (normalize project)).0 (ground arith),
)

same_text :
    (q p project : String)
    → some q ≡ some p
    → normalize p ≡ normalize project
    → normalize q ≡ normalize project
same_text q p project e same = cc

owned_matches :
    (o : Option String) (project p : String)
    → o ≡ some p
    → p ≢ ""
    → normalize p ≡ normalize project
    → project_matches o project ≡ true
unfolding project_matches
owned_matches none project p e n same = cc e
owned_matches (some q) project p e n same = ground (
  arith,
  eq_iff q "",
  codes_eq_iff (normalize q) (normalize project),
  same_text q p project e same,
)

-- The meaning of each state.
abbrev pub Means : PortState → Option Listener → Option Reservation → Type 0
Means free d r = (d ≡ none) × (r ≡ none)
Means reserved d r = (d ≡ none) × ((w : Reservation) × (r ≡ some w))
Means system_owned d r = (l : Listener) × (d ≡ some l) × (l.source ≡ Source.system)
Means active d r =
    (l : Listener) × (d ≡ some l)
    × (l.source ≢ Source.system)
    × ((r ≡ none) ⊎ ((w : Reservation) × (r ≡ some w) × IsOwnedBy l w))
Means conflict d r =
    (l : Listener) × (w : Reservation) × (d ≡ some l)
    × (r ≡ some w)
    × (l.source ≢ Source.system)
    × (IsOwnedBy l w → ⊥)

from_system : (s : Source) → is_system s ≡ true → s ≡ Source.system
from_system s h = ground arith

from_other : (s : Source) → is_system s ≡ false → s ≢ Source.system
from_other s h = ground arith

evaluate_port-Means :
    (host_id : String) (port : ℕ) (protocol : Protocol) (d : Option Listener)
    (r : Option Reservation)
    → Means (evaluate_port host_id port protocol d r).state d r
unfolding evaluate_port
evaluate_port-Means host_id port protocol none none = (refl, refl)
evaluate_port-Means host_id port protocol none (some r) = (refl, (r, refl))
evaluate_port-Means host_id port protocol (some d) none = elim (Bool-cases (is_system d.source)) [
  | inl e ↦ rw e (d, refl, from_system d.source e)
  | inr e ↦ rw e (d, refl, from_other d.source e, inl refl)
]
evaluate_port-Means host_id port protocol (some d) (some r) =
    elim (Bool-cases (is_system d.source)) [
      | inl e ↦ rw e (d, refl, from_system d.source e)
      | inr e ↦ elim (Bool-cases (project_matches d.project_name r.project)) [
        | inl m ↦
            rw (e, m)
              (
                d,
                refl,
                from_other d.source e,
                inr (r, refl, matches_owned d.project_name r.project m),
              )
        | inr m ↦
            rw (e, m)
              (
                d,
                r,
                refl,
                refl,
                from_other d.source e,
                λ (p, known, full, same).
                    absurd (cc (m, owned_matches d.project_name r.project p known full same)),
              )
      ]
    ]

other_source : (s : Source) → s ≢ Source.system → is_system s ≡ false
other_source s h = ground arith

not_owned :
    (d : Listener) (r : Reservation)
    → (IsOwnedBy d r → ⊥)
    → project_matches d.project_name r.project ≡ false
not_owned d r h = elim (Bool-cases (project_matches d.project_name r.project)) [
  | inl m ↦ absurd (h (matches_owned d.project_name r.project m))
  | inr m ↦ m
]

Means-state :
    (host_id : String) (port : ℕ) (protocol : Protocol) (d : Option Listener)
    (r : Option Reservation) (s : PortState)
    → Means s d r
    → (evaluate_port host_id port protocol d r).state ≡ s
unfolding evaluate_port
Means-state host_id port protocol d r free (e, f) = rw (e, f) refl
Means-state host_id port protocol d r reserved (e, (w, f)) = rw (e, f) refl
Means-state host_id port protocol d none system_owned (l, e, src) = rw (e, src) refl
Means-state host_id port protocol d (some w) system_owned (l, e, src) = rw (e, src) refl
Means-state host_id port protocol d r active (l, e, src, inl f) =
    rw (e, f, other_source l.source src) refl
Means-state host_id port protocol d r active (l, e, src, inr (w, f, (p, known, full, same))) =
    rw (e, f, other_source l.source src, owned_matches l.project_name w.project p known full same)
      refl
Means-state host_id port protocol d r conflict (l, w, e, f, src, foreign) =
    rw (e, f, other_source l.source src, not_owned l w foreign) refl

-- A port is FREE exactly if nothing listens and nothing is reserved; RESERVED exactly if it is only
-- reserved; SYSTEM exactly if a system-owned listener is there; ACTIVE exactly if another listener
-- is there, and no reservation or one of the project that the listener is known to belong to; and
-- CONFLICT exactly if another listener is there and a reservation whose project it is not known to
-- belong to.
pub evaluate_port_iff :
    (host_id : String) (port : ℕ) (protocol : Protocol) (d : Option Listener)
    (r : Option Reservation) (s : PortState)
    → ((evaluate_port host_id port protocol d r).state ≡ s) ↔ Means s d r
evaluate_port_iff host_id port protocol d r s =
    let m = evaluate_port-Means host_id port protocol d r in
    (λ e. subst (λ t. Means t d r) e m, Means-state host_id port protocol d r s)
