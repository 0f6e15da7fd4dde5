-- ===== src/Agent/Recommend/Exclusive.antt =====
-- Recommending and reserving as one step: what is reserved was free, and no port is given twice.
use mathlib.Core.Path.{subst}
use port_forge.Prelude.{
  ℕ, String, Option, none, some, List, [], ◌∷◌, ◌++◌, Bool, false, ◌==◌, ◌≡◌, ◌≢◌, refl, sym, ap,
  ◌∙◌, arith, any,
}
use port_forge.Central.Vocabulary.{Protocol}
use port_forge.Agent.Records.{Reservation, create}
use port_forge.Agent.Evaluate.{is_for, find_reservation}
use port_forge.Agent.Reserve.{Run, find_exact}
use port_forge.Agent.Reserve.History.{IsStore, append-IsStore, is_for-created, find-append}
use port_forge.Agent.Recommend.{
  Layers, PortForgeConfig, recommend_port, recommend_in, range_for, RecommendRequest,
  recommend_and_reserve, reserve_recommended, layers_of, claim_of,
}
use port_forge.Agent.Recommend.Sequence.{Passes, recommend_port-IsFirstPassing, IsFirstPassing}

passing_port :
    (l : Layers) (service_type : String) (o : Option (ℕ × ℕ)) {port : ℕ}
    → range_for l.config service_type ≡ o
    → (recommend_port l service_type).recommended_port ≡ some port
    → Passes l port
unfolding recommend_port recommend_in
passing_port l service_type none {port} e h =
    let absent : none ≡ some port = sym (rw e refl) ∙ h in absurd (cc absent)
passing_port l service_type (some range) {port} e h =
    let first = recommend_port-IsFirstPassing l service_type range e in
    (subst (IsFirstPassing l range) h first).0

-- A lookup for any address is a lookup of the binding.
find_reservation-exact :
    (rows : List Reservation) (host_id : String) (port : ℕ) (protocol : Protocol)
    → find_reservation rows host_id port protocol none ≡ find_exact rows host_id port protocol
find_reservation-exact [] host_id port protocol = refl
find_reservation-exact (r ∷ rows) host_id port protocol =
    ground (arith, find_reservation-exact rows host_id port protocol)

-- What a recommendation that reserves leaves: the reservation for a port that passes all layers,
-- and that the file did not have.
pub record IsGiven (config : PortForgeConfig) (bindable : ℕ → Bool) (run : Run)
    (q : RecommendRequest) (rows : List Reservation) (r : Reservation) (rows' : List Reservation)
    : Type 0 where
  pub passes : Passes (layers_of config bindable run q rows) r.port
  pub appended : rows' ≡ rows ++ r ∷ []
  pub new : r ≡ create run.host_id (claim_of q r.port) run.new_id run.now
  pub free : find_exact rows run.host_id r.port q.protocol ≡ none
  pub held : find_exact rows' run.host_id r.port q.protocol ≡ some r

module _ (config : PortForgeConfig) (bindable : ℕ → Bool) (run : Run) (q : RecommendRequest)
    (rows : List Reservation) where
  given :
      (o : Option ℕ)
      → (recommend_port (layers_of config bindable run q rows) q.service_type).recommended_port ≡ o
      → {r : Reservation} {rows' : List Reservation}
      → reserve_recommended run q rows o ≡ (some r, rows')
      → IsGiven config bindable run q rows r rows'
  unfolding reserve_recommended
  given none e h = absurd (cc h)
  given (some port) e {r} {rows'} h =
      let l = layers_of config bindable run q rows in
      let made = create run.host_id (claim_of q port) run.new_id run.now in
      let passes = passing_port l q.service_type (range_for l.config q.service_type) refl e in
      let free : find_exact rows run.host_id port q.protocol ≡ none =
        sym (find_reservation-exact rows run.host_id port q.protocol) ∙ passes.not_reserved in
      let same : made ≡ r = cc h in
      let after : rows ++ made ∷ [] ≡ rows' = cc h in
      subst (λ t. IsGiven config bindable run q rows r t) after
        (subst (λ t. IsGiven config bindable run q rows t (rows ++ made ∷ [])) same
          (record {
            passes = passes;
            appended = refl;
            new = refl;
            free = free;
            held =
                find-append (is_for run.host_id port q.protocol) rows made free
                  (is_for-created run (claim_of q port));
          }))

-- A recommendation that reserves appends one reservation, for a port that is not excluded, has no
-- listener, was not reserved before and can be bound; the file's lookup then finds it.
pub recommend_and_reserve-IsGiven :
    (config : PortForgeConfig) (bindable : ℕ → Bool) (run : Run) (q : RecommendRequest)
    (rows : List Reservation) {r : Reservation} {rows' : List Reservation}
    → (recommend_and_reserve config bindable run q rows).1 ≡ (some r, rows')
    → IsGiven config bindable run q rows r rows'
unfolding recommend_and_reserve
recommend_and_reserve-IsGiven config bindable run q rows h =
    given config bindable run q rows
      (recommend_port (layers_of config bindable run q rows) q.service_type).recommended_port refl h

module _ (config : PortForgeConfig) (bindable : ℕ → Bool) (run : Run) (q : RecommendRequest)
    (rows : List Reservation) where
  stored :
      {r : Reservation} {rows' : List Reservation}
      → any (λ w. w.reservation_id == run.new_id) rows ≡ false
      → IsGiven config bindable run q rows r rows'
      → IsStore rows
      → IsStore rows'
  stored {r} {rows'} new g s =
      let made = create run.host_id (claim_of q r.port) run.new_id run.now in
      let after : rows ++ made ∷ [] ≡ rows' = sym (g.appended ∙ ap (λ t. rows ++ t ∷ []) g.new) in
      subst IsStore after (append-IsStore run (claim_of q r.port) rows new g.free s)

-- Two commands on one host, the second on the file that the first left, never receive the same
-- port for the same protocol, whatever their service types, configurations, discoveries and bind
-- probes; and the file that they leave reserves no binding twice and uses no id twice, if it was so
-- before and each draws an id that the file does not have.
pub recommend_and_reserve-exclusive :
    (config config' : PortForgeConfig) (bindable bindable' : ℕ → Bool) (run run' : Run)
    (q q' : RecommendRequest) (rows : List Reservation) {r r' : Reservation}
    {rows' rows'' : List Reservation}
    → run'.host_id ≡ run.host_id
    → q'.protocol ≡ q.protocol
    → any (λ w. w.reservation_id == run.new_id) rows ≡ false
    → any (λ w. w.reservation_id == run'.new_id) rows' ≡ false
    → IsStore rows
    → (recommend_and_reserve config bindable run q rows).1 ≡ (some r, rows')
    → (recommend_and_reserve config' bindable' run' q' rows').1 ≡ (some r', rows'')
    → (r.port ≢ r'.port) × IsStore rows''
recommend_and_reserve-exclusive config config' bindable bindable' run run' q q' rows {r} {r'}
      {rows'} {rows''} host protocol new new' s h h' =
    let g = recommend_and_reserve-IsGiven config bindable run q rows h in
    let g' = recommend_and_reserve-IsGiven config' bindable' run' q' rows' h' in
    (
      λ same.
          let held : find_exact rows' run'.host_id r'.port q'.protocol ≡ some r =
            ap (λ x. find_exact rows' x r'.port q'.protocol) host
            ∙ (ap (λ x. find_exact rows' run.host_id r'.port x) protocol
                ∙ (ap (λ x. find_exact rows' run.host_id x q.protocol) (sym same) ∙ g.held)) in
          let taken : none ≡ some r = sym g'.free ∙ held in cc taken,
      stored config' bindable' run' q' rows' new' g' (stored config bindable run q rows new g s),
    )
