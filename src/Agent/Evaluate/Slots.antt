-- ===== src/Agent/Evaluate/Slots.antt =====
-- The slots that an evaluation of a whole host lists.
use port_forge.Prelude.{
  ℕ, ◌+◌, ◌≤◌, String, Option, none, List, [], ◌∷◌, map, Bool, true, ◌&&◌, ◌||◌, ◌==◌, ◌≡◌, refl,
  ◌∙◌, arith, any, ap,
}
use port_forge.Central.Vocabulary.{Protocol, protocol_eq, tcp, udp}
use port_forge.Agent.Records.{Listener, Reservation}
use port_forge.Agent.Evaluate.{
  EvaluatedPort, evaluate_all, evaluate_key, evaluate_port, rank, insert_key, discovered_keys,
  reserved_keys, logical_port, listens_on, is_for, find_discovered, find_reservation,
}

abbrev is_key : ℕ → Protocol → Protocol × ℕ → Bool
is_key port protocol (q, n) = n == port && protocol_eq q protocol

rank_eq :
    (p q : Protocol) (m n : ℕ) (port : ℕ) (protocol : Protocol)
    → (rank (p, m) == rank (q, n)) ≡ true
    → is_key port protocol (p, m) ≡ is_key port protocol (q, n)
rank_eq tcp tcp m n port protocol h = ground arith
rank_eq tcp udp m n port protocol h = ground arith
rank_eq udp tcp m n port protocol h = ground arith
rank_eq udp udp m n port protocol h = ground arith

any-insert_key :
    (port : ℕ) (protocol : Protocol) (k : Protocol × ℕ) (keys : List (Protocol × ℕ))
    → any (is_key port protocol) (insert_key k keys)
      ≡ (is_key port protocol k || any (is_key port protocol) keys)
any-insert_key port protocol k [] = refl
any-insert_key port protocol (p, m) ((q, n) ∷ keys) =
    ground (arith, rank_eq p q m n port protocol, any-insert_key port protocol (p, m) keys)

any-reserved_keys :
    (port : ℕ) (protocol : Protocol) (host_id : String) (rows : List Reservation)
    → any (is_key port protocol) (reserved_keys host_id rows)
      ≡ any (is_for host_id port protocol) rows
any-reserved_keys port protocol host_id [] = refl
any-reserved_keys port protocol host_id (r ∷ rows) = ground (
  arith,
  any-reserved_keys port protocol host_id rows,
  any-insert_key port protocol (r.protocol, r.port) (reserved_keys host_id rows),
)

any-discovered_keys :
    (port : ℕ) (protocol : Protocol) (ds : List Listener) (keys : List (Protocol × ℕ))
    → any (is_key port protocol) (discovered_keys ds keys)
      ≡ (any (listens_on port protocol) ds || any (is_key port protocol) keys)
any-discovered_keys port protocol [] keys = refl
any-discovered_keys port protocol (d ∷ ds) keys = ground (
  arith,
  any-discovered_keys port protocol ds keys,
  any-insert_key port protocol (d.protocol, logical_port d) (discovered_keys ds keys),
)

-- Keys in strictly ascending order, all above a bound.
abbrev IsAscending : ℕ → List (Protocol × ℕ) → Type 0
IsAscending low [] = Unit
IsAscending low (k ∷ keys) = (low ≤ rank k) × IsAscending (rank k + 1) keys

insert_key-IsAscending :
    (low : ℕ) (k : Protocol × ℕ) (keys : List (Protocol × ℕ))
    → low ≤ rank k
    → IsAscending low keys
    → IsAscending low (insert_key k keys)
insert_key-IsAscending low k [] h s = (h, tt)
insert_key-IsAscending low k (x ∷ keys) h s =
    ground (arith, insert_key-IsAscending (rank x + 1) k keys)

abbrev pub slot_rank : EvaluatedPort → ℕ
slot_rank e = rank (e.protocol, e.port)

abbrev pub IsSortedFrom : ℕ → List EvaluatedPort → Type 0
IsSortedFrom low [] = Unit
IsSortedFrom low (e ∷ es) = (low ≤ slot_rank e) × IsSortedFrom (slot_rank e + 1) es

abbrev pub is_slot : ℕ → Protocol → EvaluatedPort → Bool
is_slot port protocol e = e.port == port && protocol_eq e.protocol protocol

evaluate_port-slot :
    (host_id : String) (port : ℕ) (protocol : Protocol) (d : Option Listener)
    (r : Option Reservation)
    → ((evaluate_port host_id port protocol d r).port ≡ port)
      × ((evaluate_port host_id port protocol d r).protocol ≡ protocol)
unfolding evaluate_port
evaluate_port-slot host_id port protocol d r = ground arith

module _ (host_id : String) (ds : List Listener) (rows : List Reservation) where
  key_slot :
      (k : Protocol × ℕ)
      → ((evaluate_key host_id ds rows k).port ≡ k.1)
        × ((evaluate_key host_id ds rows k).protocol ≡ k.0)
  unfolding evaluate_key evaluate_port
  key_slot (protocol, port) =
      evaluate_port-slot host_id port protocol (find_discovered ds port protocol)
        (find_reservation rows host_id port protocol none)

  any-evaluate_keys :
      (port : ℕ) (protocol : Protocol) (keys : List (Protocol × ℕ))
      → any (is_slot port protocol) (map (evaluate_key host_id ds rows) keys)
        ≡ any (is_key port protocol) keys
  any-evaluate_keys port protocol [] = refl
  any-evaluate_keys port protocol (k ∷ keys) =
      rw ((key_slot k).0, (key_slot k).1, any-evaluate_keys port protocol keys) refl

  sorted_slots :
      (low : ℕ) (keys : List (Protocol × ℕ))
      → IsAscending low keys
      → IsSortedFrom low (map (evaluate_key host_id ds rows) keys)
  sorted_slots low [] h = tt
  sorted_slots low (k ∷ keys) h =
      rw ((key_slot k).0, (key_slot k).1) (h.0, sorted_slots (rank k + 1) keys h.1)

  discovered_keys-IsAscending :
      (ds' : List Listener) (keys : List (Protocol × ℕ))
      → IsAscending 0 keys
      → IsAscending 0 (discovered_keys ds' keys)
  discovered_keys-IsAscending [] keys h = h
  discovered_keys-IsAscending (d ∷ ds') keys h =
      insert_key-IsAscending 0 (d.protocol, logical_port d) (discovered_keys ds' keys) (omega arith)
        (discovered_keys-IsAscending ds' keys h)

  reserved_keys-IsAscending : (rs : List Reservation) → IsAscending 0 (reserved_keys host_id rs)
  reserved_keys-IsAscending [] = tt
  reserved_keys-IsAscending (r ∷ rs) = ground (
    arith,
    reserved_keys-IsAscending rs,
    insert_key-IsAscending 0 (r.protocol, r.port) (reserved_keys host_id rs),
  )

-- The evaluation of a host lists a slot (protocol, port) exactly if a listener has it as its logical
-- port or a reservation of the host is for it, and lists the slots in strictly ascending order of
-- port and then protocol, so none twice.
pub evaluate_all-slots :
    (host_id : String) (ds : List Listener) (rows : List Reservation)
    → ((port : ℕ) (protocol : Protocol)
        → any (is_slot port protocol) (evaluate_all host_id ds rows)
          ≡ (any (listens_on port protocol) ds || any (is_for host_id port protocol) rows))
      × IsSortedFrom 0 (evaluate_all host_id ds rows)
unfolding evaluate_all
evaluate_all-slots host_id ds rows =
    let keys = discovered_keys ds (reserved_keys host_id rows) in
    (
      λ port protocol.
          any-evaluate_keys host_id ds rows port protocol keys
          ∙ any-discovered_keys port protocol ds (reserved_keys host_id rows)
          ∙ ap (λ b. any (listens_on port protocol) ds || b)
              (any-reserved_keys port protocol host_id rows),
      sorted_slots host_id ds rows 0 keys (
          discovered_keys-IsAscending host_id ds rows ds (reserved_keys host_id rows)
            (reserved_keys-IsAscending host_id ds rows rows)),
    )
