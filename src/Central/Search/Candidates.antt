-- ===== src/Central/Search/Candidates.antt =====
-- What the search for a port finds: the least port of the range that nothing occupies, reserves or
-- excludes.
use port_forge.Prelude.{
  ℕ, zero, suc, ◌+◌, ◌-◌, ◌≤◌, ◌<◌, Option, none, some, List, Bool, true, false, ◌&&◌, ◌||◌, ◌==◌,
  ◌≡◌, refl, ap, sym, ◌∙◌, any, select, length, arith, take-eq, any-order_by, any-select, any-congr,
  any-map, length-order_by, inl, inr, Bool-cases, String, order_by,
}
use port_forge.Central.Vocabulary.{Protocol, protocol_eq}
use port_forge.Central.Tables.{CentralReservation, CurrentPort, Db}
use port_forge.Central.Reservations.{list_for_host}
use port_forge.Central.Search.{
  member, row_limit, in_range, is_observed, is_reserved, occupied_ports, reserved_ports, scan,
  is_unavailable, search_range, find_available_port, range_of,
}

-- The rows of a host stay below the limit of the query, so it returns them all.
abbrev pub FitsLimit : ℕ → List CentralReservation → Type 0
FitsLimit host_id rows = length (select (λ r. r.host_id == host_id) rows) ≤ row_limit

-- A binding of the host is taken: observed in use, or reserved.
abbrev pub is_taken : ℕ → ℕ → Protocol → Db → Bool
is_taken host_id port protocol db =
    any (is_observed host_id port protocol) db.ports
    || any (λ r. r.host_id == host_id && is_reserved port protocol r) db.reservations

-- Within its limit, a query over a host's rows sees each of them.
pub any-list_for_host :
    (p : CentralReservation → Bool) (host_id limit : ℕ) (rows : List CentralReservation)
    → length (select (λ r. r.host_id == host_id) rows) ≤ limit
    → any p (list_for_host host_id limit rows) ≡ any (λ r. r.host_id == host_id && p r) rows
unfolding list_for_host
any-list_for_host p host_id limit rows h =
    let own = select (λ r. r.host_id == host_id) rows in
    ap (any p) (
      take-eq limit (order_by (λ r. r.port) own) (omega (arith, length-order_by (λ r. r.port) own)))
    ∙ any-order_by p (λ r. r.port) own
    ∙ any-select p (λ r. r.host_id == host_id) rows

module _ (u : ℕ → Bool) where
  -- The candidate that is found is available, and all before it are not.
  pub scan-some :
      (left c k : ℕ) (p : ℕ)
      → (scan u left c k).0 ≡ some p
      → (u p ≡ false) × (c ≤ p) × (p < c + left) × ((q : ℕ) → c ≤ q → q < p → u q ≡ true)
  unfolding scan
  scan-some zero c k p h = cc
  scan-some (suc left) c k p h = elim (Bool-cases (u c)) [
    | inl taken ↦
        let (free, low, high, least) = scan-some left (suc c) (suc k) p (rw (taken, scan) at h) in
        (free, omega arith, omega arith, λ q from to. ground (arith, least q))
    | inr free ↦
        let e : c ≡ p = ground arith in
        (rw e at free, omega (arith, e), omega (arith, e), λ q from to. absurd (omega (arith, e)))
  ]

  -- Nothing is found only if every candidate is unavailable.
  pub scan-none :
      (left c k : ℕ) → (scan u left c k).0 ≡ none → (q : ℕ) → c ≤ q → q < c + left → u q ≡ true
  unfolding scan
  scan-none zero c k h q low high = absurd (omega arith)
  scan-none (suc left) c k h q low high =
      ground
        (arith, scan-none left (suc c) (suc k), scan-none left (suc c) (suc k) (ground arith) q)

  pub scan-considered : (left c k : ℕ) → (scan u left c k).1 ≤ k + left
  unfolding scan
  scan-considered zero c k = omega arith
  scan-considered (suc left) c k = ground (arith, scan-considered left (suc c) (suc k))

module _ (host_id : ℕ) (protocol : Protocol) (start end c : ℕ)
    (inside : in_range start end c ≡ true) where
  member-occupied_ports :
      (rows : List CurrentPort)
      → member c (occupied_ports host_id protocol start end rows)
        ≡ any (is_observed host_id c protocol) rows
  unfolding occupied_ports
  member-occupied_ports rows =
      let in_reach =
        λ (row : CurrentPort). in_range start end row.port && protocol_eq row.protocol protocol in
      any-map (λ m. m == c) (λ row. row.port)
        (select in_reach (select (λ row. row.host_id == host_id) rows))
      ∙ any-select (λ row. row.port == c) in_reach (select (λ row. row.host_id == host_id) rows)
      ∙ any-select (λ row. in_reach row && row.port == c) (λ row. row.host_id == host_id) rows
      ∙ any-congr (λ row. row.host_id == host_id && (in_reach row && row.port == c))
          (is_observed host_id c protocol) rows (λ row. ground arith)

  member-reserved_ports :
      (rows : List CentralReservation)
      → FitsLimit host_id rows
      → member c (reserved_ports host_id protocol start end rows)
        ≡ any (λ r. r.host_id == host_id && is_reserved c protocol r) rows
  unfolding reserved_ports
  member-reserved_ports rows fits =
      let in_reach =
        λ (r : CentralReservation). in_range start end r.port && protocol_eq r.protocol protocol in
      any-map (λ m. m == c) (λ r. r.port) (select in_reach (list_for_host host_id row_limit rows))
      ∙ any-select (λ r. r.port == c) in_reach (list_for_host host_id row_limit rows)
      ∙ any-list_for_host (λ r. in_reach r && r.port == c) host_id row_limit rows fits
      ∙ any-congr (λ r. r.host_id == host_id && (in_reach r && r.port == c))
          (λ r. r.host_id == host_id && is_reserved c protocol r) rows (λ r. ground arith)

  -- Inside the range, a candidate is unavailable exactly if its binding is taken or excluded.
  pub is_unavailable-eq :
      (exclude : List ℕ) (db : Db)
      → FitsLimit host_id db.reservations
      → is_unavailable host_id protocol exclude (start, end) db c
        ≡ (is_taken host_id c protocol db || member c exclude)
  is_unavailable-eq exclude db fits =
      ground (arith, member-occupied_ports db.ports, member-reserved_ports db.reservations fits)

-- What a search over a range promises: the least port of the range that is neither taken nor
-- excluded, or nothing if there is none.
abbrev pub IsLeastFree : ℕ → Protocol → List ℕ → ℕ × ℕ → Db → Option ℕ → Type 0
IsLeastFree host_id protocol exclude (start, end) db none =
    (q : ℕ) → start ≤ q → q ≤ end → (is_taken host_id q protocol db || member q exclude) ≡ true
IsLeastFree host_id protocol exclude (start, end) db (some p) =
    (start ≤ p)
    × (p ≤ end)
    × (is_taken host_id p protocol db ≡ false)
    × (member p exclude ≡ false)
    × ((q : ℕ) → start ≤ q → q < p → (is_taken host_id q protocol db || member q exclude) ≡ true)

module _ (host_id : ℕ) (protocol : Protocol) (exclude : List ℕ) (range : ℕ × ℕ) (db : Db)
    (fits : FitsLimit host_id db.reservations) where
  search_range_result :
      (o : Option ℕ)
      → (scan
          (is_unavailable host_id protocol exclude range db)
          (suc range.1 - range.0)
          range.0
          0).0
        ≡ o
      → IsLeastFree host_id protocol exclude range db o
  search_range_result none h = λ q low high.
      sym (is_unavailable-eq host_id protocol range.0 range.1 q (ground arith) exclude db fits)
      ∙ scan-none (is_unavailable host_id protocol exclude range db) (suc range.1 - range.0) range.0
          0 h q low (omega arith)
  search_range_result (some p) h =
      let (free, low, high, least) =
        scan-some (is_unavailable host_id protocol exclude range db) (suc range.1 - range.0) range.0
          0 p h in
      let same =
        is_unavailable-eq host_id protocol range.0 range.1 p (ground arith) exclude db fits in
      (
        low,
        omega arith,
        ground arith,
        ground arith,
        λ q from to.
            sym
              (is_unavailable-eq host_id protocol range.0 range.1 q (ground arith) exclude db fits)
            ∙ least q from to,
      )

  pub search_range-IsLeastFree :
      IsLeastFree host_id protocol exclude range db
        (search_range host_id protocol exclude range db).port
  unfolding search_range
  search_range-IsLeastFree =
      search_range_result
        (scan (is_unavailable host_id protocol exclude range db) (suc range.1 - range.0) range.0
          0).0
        refl

-- The candidate search returns the least port of the range that no observation and no reservation
-- of the host holds and the caller does not exclude, and none exactly when every port of the range
-- is so held or excluded, for a host whose reservations stay below the query's limit.
pub find_available_port-IsLeastFree :
    (host_id : ℕ) (service_type : String) (protocol : Protocol) (exclude : List ℕ)
    (requested : Option (ℕ × ℕ)) (range : ℕ × ℕ) (db : Db)
    → FitsLimit host_id db.reservations
    → range_of service_type requested ≡ some range
    → IsLeastFree host_id protocol exclude range db
        (find_available_port host_id service_type protocol exclude requested db).port
unfolding find_available_port
find_available_port-IsLeastFree host_id service_type protocol exclude requested range db fits e =
    rw e (search_range-IsLeastFree host_id protocol exclude range db fits)

-- Without a range there is nothing to find.
pub find_available_port-no_range :
    (host_id : ℕ) (service_type : String) (protocol : Protocol) (exclude : List ℕ)
    (requested : Option (ℕ × ℕ)) (db : Db)
    → range_of service_type requested ≡ none
    → (find_available_port host_id service_type protocol exclude requested db).port ≡ none
unfolding find_available_port
find_available_port-no_range host_id service_type protocol exclude requested db e = rw e
