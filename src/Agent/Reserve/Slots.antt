-- ===== src/Agent/Reserve/Slots.antt =====
-- Each binding of a host is reserved at most once, and a reservation that is made can be looked up
-- and released.
use port_forge.Prelude.{
  ℕ, none, List, [], ◌∷◌, ◌++◌, Bool, false, ◌==◌, ◌≡◌, refl, arith, find?, any, update_first,
  eq_iff, any-append,
}
use port_forge.Agent.Records.{Reservation, Claim}
use port_forge.Central.Vocabulary.{protocol_eq_iff}
use port_forge.Agent.Evaluate.{is_for}
use port_forge.Agent.Reserve.{refresh, without}
use port_forge.Agent.Reserve.Ownership.{HasIds}

abbrev pub has_slot_of : Reservation → Reservation → Bool
has_slot_of r w = is_for r.host_id r.port r.protocol w

-- No two rows are for one binding.
abbrev pub HasSlots : List Reservation → Type 0
HasSlots [] = Unit
HasSlots (r ∷ rows) = (any (has_slot_of r) rows ≡ false) × HasSlots rows

pub find-any :
    (p : Reservation → Bool) (rows : List Reservation) → find? p rows ≡ none → any p rows ≡ false
find-any p [] e = refl
find-any p (r ∷ rows) e = ground (arith, find-any p rows)

has_slot_of-sym : (r w : Reservation) → has_slot_of r w ≡ has_slot_of w r
has_slot_of-sym r w = ground (
  arith,
  eq_iff r.host_id w.host_id,
  eq_iff w.host_id r.host_id,
  protocol_eq_iff r.protocol w.protocol,
  protocol_eq_iff w.protocol r.protocol,
)

pub HasSlots-append :
    (rows : List Reservation) (r : Reservation)
    → HasSlots rows
    → any (has_slot_of r) rows ≡ false
    → HasSlots (rows ++ r ∷ [])
HasSlots-append [] r k f = (refl, tt)
HasSlots-append (x ∷ rows) r k f = ground (
  arith,
  any-append (has_slot_of x) rows (r ∷ []),
  HasSlots-append rows r k.1,
  has_slot_of-sym x r,
)

pub HasIds-append :
    (rows : List Reservation) (r : Reservation)
    → HasIds rows
    → any (λ w. w.reservation_id == r.reservation_id) rows ≡ false
    → HasIds (rows ++ r ∷ [])
HasIds-append [] r k f = (refl, tt)
HasIds-append (x ∷ rows) r k f = ground (
  arith,
  any-append (λ w. w.reservation_id == x.reservation_id) rows (r ∷ []),
  HasIds-append rows r k.1,
)

module _ (c : Claim) (now : ℕ) (p : Reservation → Bool) where
  any_slot-update_first :
      (r : Reservation) (rows : List Reservation)
      → any (has_slot_of r) (update_first p (refresh c now) rows) ≡ any (has_slot_of r) rows
  any_slot-update_first r [] = refl
  any_slot-update_first r (x ∷ rows) = ground (arith, any_slot-update_first r rows)

  any_id-update_first :
      (k : ℕ) (rows : List Reservation)
      → any (λ w. w.reservation_id == k) (update_first p (refresh c now) rows)
        ≡ any (λ w. w.reservation_id == k) rows
  any_id-update_first k [] = refl
  any_id-update_first k (x ∷ rows) = ground (arith, any_id-update_first k rows)

  pub HasSlots-update_first :
      (rows : List Reservation) → HasSlots rows → HasSlots (update_first p (refresh c now) rows)
  HasSlots-update_first [] k = tt
  HasSlots-update_first (x ∷ rows) k =
      ground (arith, any_slot-update_first x rows, HasSlots-update_first rows k.1, k)

  pub HasIds-update_first :
      (rows : List Reservation) → HasIds rows → HasIds (update_first p (refresh c now) rows)
  HasIds-update_first [] k = tt
  HasIds-update_first (x ∷ rows) k =
      ground (arith, any_id-update_first x.reservation_id rows, HasIds-update_first rows k.1, k)

any-without :
    (p : Reservation → Bool) (id : ℕ) (rows : List Reservation)
    → any p rows ≡ false
    → any p (without id rows) ≡ false
any-without p id [] h = refl
any-without p id (r ∷ rows) h = ground (arith, any-without p id rows)

pub HasSlots-without :
    (id : ℕ) (rows : List Reservation) → HasSlots rows → HasSlots (without id rows)
HasSlots-without id [] k = tt
HasSlots-without id (r ∷ rows) k =
    ground (arith, any-without (has_slot_of r) id rows k.0, HasSlots-without id rows k.1)

pub HasIds-without : (id : ℕ) (rows : List Reservation) → HasIds rows → HasIds (without id rows)
HasIds-without id [] k = tt
HasIds-without id (r ∷ rows) k = ground (
  arith,
  any-without (λ w. w.reservation_id == r.reservation_id) id rows k.0,
  HasIds-without id rows k.1,
)
