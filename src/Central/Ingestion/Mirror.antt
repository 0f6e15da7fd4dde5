-- ===== src/Central/Ingestion/Mirror.antt =====
-- The table of current ports as a map from host and binding to row, and what a snapshot makes of it.
use port_forge.Prelude.{
  ℕ, ◌≤◌, String, Option, none, some, List, [], ◌∷◌, Bool, true, false, not, ◌&&◌, ◌≡◌, refl, sym,
  ap, ◌∙◌, arith, find?, any, select, length, any-congr, is_some, Bool-cases, inl, inr,
  Option-cases, if◌then◌else◌,
}
use port_forge.Central.Vocabulary.{Protocol}
use port_forge.Central.Tables.{Observation, CurrentPort}
use port_forge.Central.Canonical.{has_key, same_key}
use port_forge.Central.Ingestion.{
  Snapshot, Progress, is_row, is_row_for, fresh_row, refresh_row, refresh_existing, appear,
  disappear, current_row, observe_against, observe_each, remove_absent,
}
use port_forge.Central.Ingestion.Lookup.{
  is_at, find?-append, find?-update_first_same, find?-update_first_apart, find?-select_same,
  find?-select_apart, find?-cons_here, has_key_of, find?-cons_apart, is_row-same, is_row-apart,
  is_row-refresh_row, is_row-fresh_row,
}

-- The row that an observation leaves at its binding.
unfoldable pub row_after : Snapshot → Observation → Option CurrentPort → CurrentPort
row_after s o none = fresh_row s o
row_after s o (some r) = refresh_row s o r

-- What a snapshot makes of one binding of its host: a binding that it does not have goes.
unfoldable pub binding_after :
    Snapshot → Option Observation → Option CurrentPort → Option CurrentPort
binding_after s none old = none
binding_after s (some o) old = some (row_after s o old)

-- The same, before the rows that the snapshot does not have are removed.
unfoldable pub observed_after :
    Snapshot → Option Observation → Option CurrentPort → Option CurrentPort
observed_after s none old = old
observed_after s (some o) old = some (row_after s o old)

-- The row of a binding in the table.
abbrev pub row_at : ℕ → ℕ → Protocol → String → List CurrentPort → Option CurrentPort
row_at h port protocol address ports = find? (is_row h port protocol address) ports

module _ (h port : ℕ) (protocol : Protocol) (address : String) (s : Snapshot) where
  step_here :
      (b : Bool) (o : Observation) (current : Option CurrentPort) (p : Progress)
      → is_at h port protocol address s.host_id o ≡ true
      → is_some current ≡ is_some (row_at h port protocol address p.ports)
      → row_at h port protocol address (observe_against s b o current p).ports
        ≡ some (row_after s o (row_at h port protocol address p.ports))
  unfolding observe_against appear refresh_existing row_after
  step_here b o none p m e = elim (Option-cases (row_at h port protocol address p.ports)) [
    | inl n ↦ ground (
      arith,
      find?-append (is_row h port protocol address) (is_row h port protocol address) p.ports
          (fresh_row s o ∷ []),
      is_row-fresh_row h port protocol address s o,
    )
    | inr f ↦ ground (arith, e, f.1)
  ]
  step_here b o (some existing) p m e =
      elim (Option-cases (row_at h port protocol address p.ports)) [
        | inl n ↦ ground (arith, e, n)
        | inr f ↦
            find?-update_first_same (is_row h port protocol address) (is_row_for s.host_id o)
              (refresh_row s o) p.ports (is_row-refresh_row h port protocol address s o)
              (λ r. is_row-same h port protocol address s.host_id o r m)
            ∙ ground (arith, f.1)
      ]

  pub step_apart :
      (b : Bool) (o : Observation) (current : Option CurrentPort) (p : Progress)
      → is_at h port protocol address s.host_id o ≡ false
      → row_at h port protocol address (observe_against s b o current p).ports
        ≡ row_at h port protocol address p.ports
  unfolding observe_against appear refresh_existing
  step_apart b o none p m = ground (
    arith,
    find?-append (is_row h port protocol address) (is_row h port protocol address) p.ports
        (fresh_row s o ∷ []),
    is_row-fresh_row h port protocol address s o,
  )
  step_apart b o (some existing) p m =
      find?-update_first_apart (is_row h port protocol address) (is_row_for s.host_id o)
        (refresh_row s o) p.ports (is_row-refresh_row h port protocol address s o)
        (λ r e. is_row-apart h port protocol address s.host_id o r m e)

  pub observe_each-apart :
      (b : Bool) (rows : List CurrentPort) (os : List Observation) (p : Progress)
      → any (is_at h port protocol address s.host_id) os ≡ false
      → row_at h port protocol address (observe_each s b rows os p).ports
        ≡ row_at h port protocol address p.ports
  unfolding observe_each
  observe_each-apart b rows [] p m = refl
  observe_each-apart b rows (o ∷ os) p m =
      observe_each-apart b rows os (observe_against s b o (current_row o rows) p) (ground arith)
      ∙ step_apart b o (current_row o rows) p (ground arith)

  -- One loop over observations of which at most one is of this binding.
  pub observe_each-row_at :
      (b : Bool) (rows : List CurrentPort) (os : List Observation) (p : Progress)
      → length (select (is_at h port protocol address s.host_id) os) ≤ 1
      → ((o : Observation)
          → is_at h port protocol address s.host_id o ≡ true
          → is_some (current_row o rows) ≡ is_some (row_at h port protocol address p.ports))
      → row_at h port protocol address (observe_each s b rows os p).ports
        ≡ observed_after s
            (find? (is_at h port protocol address s.host_id) os)
            (row_at h port protocol address p.ports)
  unfolding observe_each observed_after
  observe_each-row_at b rows [] p c k = refl
  observe_each-row_at b rows (o ∷ os) p c k =
      elim (Bool-cases (is_at h port protocol address s.host_id o)) [
        | inl m ↦
            observe_each-apart b rows os (observe_against s b o (current_row o rows) p)
              (none_left os (ground (arith, m, c)))
            ∙ step_here b o (current_row o rows) p m (k o m)
            ∙ sym (
                ap (λ x. observed_after s x (row_at h port protocol address p.ports))
                  (find?-cons_here (is_at h port protocol address s.host_id) o os m))
        | inr m ↦
            observe_each-row_at b rows os (observe_against s b o (current_row o rows) p)
              (ground (arith, m, c))
              (λ o' m'. k o' m' ∙ sym (ap is_some (step_apart b o (current_row o rows) p m)))
            ∙ ap (observed_after s (find? (is_at h port protocol address s.host_id) os))
                (step_apart b o (current_row o rows) p m)
            ∙ sym (
                ap (λ x. observed_after s x (row_at h port protocol address p.ports))
                  (find?-cons_apart (is_at h port protocol address s.host_id) o os m))
      ]
    where
      none_left :
          (xs : List Observation)
          → length (select (is_at h port protocol address s.host_id) xs) ≡ 0
          → any (is_at h port protocol address s.host_id) xs ≡ false
      none_left [] e = refl
      none_left (x ∷ xs) e = ground (arith, none_left xs)

  -- The loop that removes the rows of absent bindings.
  pub remove_absent-row_at :
      (canonical : List Observation) (rows : List CurrentPort) (p : Progress)
      → row_at h port protocol address (remove_absent s canonical rows p).ports ≡ (
          if any (λ r. is_at h port protocol address s.host_id r.observed) rows
            && not (any (has_key port protocol address) canonical)
          then none
          else row_at h port protocol address p.ports)
  unfolding remove_absent disappear
  remove_absent-row_at canonical [] p = refl
  remove_absent-row_at canonical (r ∷ rows) p =
      elim (Bool-cases (is_at h port protocol address s.host_id r.observed)) [
        | inl m ↦ ground (
          arith,
          m,
          remove_absent-row_at canonical rows p,
          remove_absent-row_at canonical rows (disappear s r p),
          any-congr (same_key r.observed) (has_key port protocol address) canonical (same m),
          find?-select_same (is_row h port protocol address) (is_row_for s.host_id r.observed)
              p.ports (λ x. is_row-same h port protocol address s.host_id r.observed x m),
        )
        | inr m ↦ ground (
          arith,
          m,
          remove_absent-row_at canonical rows p,
          remove_absent-row_at canonical rows (disappear s r p),
          find?-select_apart (is_row h port protocol address) (is_row_for s.host_id r.observed)
              p.ports (λ x e. is_row-apart h port protocol address s.host_id r.observed x m e),
        )
      ]
    where
      same :
          is_at h port protocol address s.host_id r.observed ≡ true
          → (x : Observation) → same_key r.observed x ≡ has_key port protocol address x
      same m x = ground (arith, m, has_key_of port protocol address r.observed x)
