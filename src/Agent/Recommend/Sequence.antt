-- ===== src/Agent/Recommend/Sequence.antt =====
-- A recommended port passes all layers of validation, and is the first that does.
use mathlib.Core.Path.{subst}
use port_forge.Prelude.{
  sym, ◌∙◌, Bool-cases, inl, inr, ℕ, zero, suc, ◌+◌, ◌-◌, ◌≤◌, ◌<◌, String, Option, none, some,
  Bool, true, false, ◌≡◌, refl, arith,
}
use port_forge.Agent.Records.{Listener, Reservation}
use port_forge.Agent.Evaluate.{find_discovered, find_reservation}
use port_forge.Agent.Recommend.{
  Layers, validate, verdict_of, is_excluded, is_accepted, walk, recommend_in, recommend_port,
  range_for,
}

-- The layers of validation, as facts about a candidate.
pub record Passes (l : Layers) (port : ℕ) : Type 0 where
  pub not_excluded : is_excluded l.config port ≡ false
  pub not_listening : find_discovered l.discovered port l.protocol ≡ none
  pub not_reserved : find_reservation l.rows l.host_id port l.protocol none ≡ none
  pub can_bind : l.bindable port ≡ true

verdict_accepted :
    (x : Bool) (d : Option Listener) (r : Option Reservation) (b : Bool)
    → is_accepted (verdict_of x d r b) ≡ true
    → (x ≡ false) × (d ≡ none) × (r ≡ none) × (b ≡ true)
unfolding verdict_of
verdict_accepted x d r b h = ground arith

accepts :
    (x : Bool) (d : Option Listener) (r : Option Reservation) (b : Bool)
    → x ≡ false
    → d ≡ none
    → r ≡ none
    → b ≡ true
    → is_accepted (verdict_of x d r b) ≡ true
unfolding verdict_of
accepts x d r b hx hd hr hb = rw (hx, hd, hr, hb) refl

accepted-Passes : (l : Layers) (port : ℕ) → is_accepted (validate l port) ≡ true → Passes l port
unfolding validate
accepted-Passes l port h =
    let (x, d, r, b) =
      verdict_accepted (is_excluded l.config port) (find_discovered l.discovered port l.protocol)
        (find_reservation l.rows l.host_id port l.protocol none) (l.bindable port) h in
    record { not_excluded = x; not_listening = d; not_reserved = r; can_bind = b }

Passes-accepted : (l : Layers) (port : ℕ) → Passes l port → is_accepted (validate l port) ≡ true
unfolding validate
Passes-accepted l port p =
    accepts (is_excluded l.config port) (find_discovered l.discovered port l.protocol)
      (find_reservation l.rows l.host_id port l.protocol none) (l.bindable port) p.not_excluded
      p.not_listening p.not_reserved p.can_bind

walk-some :
    (l : Layers) (n c tried : ℕ) {port : ℕ}
    → (walk l n c tried).0 ≡ some port
    → (is_accepted (validate l port) ≡ true)
      × (c ≤ port)
      × (port < c + n)
      × ((q : ℕ) → c ≤ q → q < port → is_accepted (validate l q) ≡ false)
unfolding walk
walk-some l zero c tried e = absurd (cc e)
walk-some l (suc n) c tried {port} e = elim (Bool-cases (is_accepted (validate l c))) [
  | inl good ↦
      let same : some c ≡ some port = sym (rw good refl) ∙ e in
      let at_port : c ≡ port = cc same in
      (
        subst (λ q. is_accepted (validate l q) ≡ true) at_port good,
        omega (arith, at_port),
        omega (arith, at_port),
        λ q from to. absurd (omega (arith, at_port)),
      )
  | inr bad ↦
      let (good, low, high, least) =
        walk-some l n (suc c) (suc tried) {port = port} (sym (rw bad refl) ∙ e) in
      (good, omega arith, omega arith, λ q from to. ground (arith, least q, bad))
]

walk-none :
    (l : Layers) (n c tried : ℕ)
    → (walk l n c tried).0 ≡ none
    → (q : ℕ) → c ≤ q
    → q < c + n
    → is_accepted (validate l q) ≡ false
unfolding walk
walk-none l zero c tried e q low high = absurd (omega arith)
walk-none l (suc n) c tried e q low high =
    ground
      (arith, walk-none l n (suc c) (suc tried), walk-none l n (suc c) (suc tried) (ground arith) q)

-- What a recommendation over a range promises: its first port that passes all layers, or nothing if
-- none does.
abbrev pub IsFirstPassing : Layers → ℕ × ℕ → Option ℕ → Type 0
IsFirstPassing l (start, end) none = (q : ℕ) → start ≤ q → q ≤ end → Passes l q → ⊥
IsFirstPassing l (start, end) (some port) =
    Passes l port
    × (start ≤ port)
    × (port ≤ end)
    × ((q : ℕ) → start ≤ q → q < port → Passes l q → ⊥)

not_passing : (l : Layers) (q : ℕ) → is_accepted (validate l q) ≡ false → Passes l q → ⊥
not_passing l q f p = cc (f, Passes-accepted l q p)

walk-IsFirstPassing :
    (l : Layers) (start end : ℕ) (o : Option ℕ)
    → (walk l (suc end - start) start 0).0 ≡ o
    → IsFirstPassing l (start, end) o
walk-IsFirstPassing l start end none e =
    λ q low high p. not_passing l q (walk-none l (suc end - start) start 0 e q low (omega arith)) p
walk-IsFirstPassing l start end (some port) e =
    let (good, low, high, least) = walk-some l (suc end - start) start 0 e in
    (
      accepted-Passes l port good,
      low,
      omega arith,
      λ q from to p. not_passing l q (least q from to) p,
    )

-- A recommended port lies in the configured range of the service type, is not excluded, has no
-- listener and no reservation, and can be bound, and no earlier port of the range is so; and if no
-- port is recommended, then none of the range is so.
pub recommend_port-IsFirstPassing :
    (l : Layers) (service_type : String) (range : ℕ × ℕ)
    → range_for l.config service_type ≡ some range
    → IsFirstPassing l range (recommend_port l service_type).recommended_port
unfolding recommend_port recommend_in
recommend_port-IsFirstPassing l service_type (start, end) e =
    rw e (walk-IsFirstPassing l start end (walk l (suc end - start) start 0).0 refl)
