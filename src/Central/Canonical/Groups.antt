-- ===== src/Central/Canonical/Groups.antt =====
-- The groups of a snapshot: one for each binding, each of observations of that binding alone.
use port_forge.Prelude.{
  ℕ, suc, String, Option, none, some, List, [], ◌∷◌, ◌++◌, Bool, true, false, ◌&&◌, ◌==◌, ◌≡◌, refl,
  sym, ap, ◌∙◌, arith, All, All-append, any, select, length, length-select-cons, find?, ==_iff,
  eq_iff, is_truthy, Bool-cases, inl, inr, if◌then◌else◌,
}
use port_forge.Central.Vocabulary.{Protocol, protocol_eq_iff}
use port_forge.Central.Tables.{Observation}
use port_forge.Central.Canonical.{
  has_key, same_key, Group, add_to_groups, group_all, insert_ranked, ranked, merge_ranked,
  merge_observation_group, canonical_of, canonical_over, backfill, copied, has_process,
  has_container, has_detection, copy_process, copy_container, copy_detection, copy_project, key_lt,
  observation_sort_key,
}

joined :
    (x y : Bool) (n : ℕ)
    → x ≡ y
    → (if x then suc n else n)
      ≡ (if y && ((if x then suc n else n) == 0) then 1 else (if x then suc n else n))
joined x y n h = ground arith

apart :
    (x y : Bool) (n : ℕ)
    → (x ≡ true → y ≡ true → ⊥)
    → (if x then suc (if y && (n == 0) then 1 else n) else (if y && (n == 0) then 1 else n))
      ≡ (if y && ((if x then suc n else n) == 0) then 1 else (if x then suc n else n))
apart true true n h = absurd (h refl refl)
apart true false n h = ground arith
apart false y n h = ground arith

module _ (port : ℕ) (protocol : Protocol) (address : String) where
  pub has_key-same_key :
      (a b : Observation)
      → same_key a b ≡ true
      → has_key port protocol address a ≡ has_key port protocol address b
  unfolding has_key
  has_key-same_key a b h = ground (
    arith,
    ==_iff b.port a.port,
    protocol_eq_iff b.protocol a.protocol,
    eq_iff b.bind_address a.bind_address,
    eq_iff a.bind_address address,
    eq_iff b.bind_address address,
  )

  both_same_key :
      (a b : Observation)
      → has_key port protocol address a ≡ true
      → has_key port protocol address b ≡ true
      → same_key a b ≡ true
  unfolding has_key
  both_same_key a b ha hb = ground (
    arith,
    ==_iff a.port port,
    ==_iff b.port port,
    ==_iff b.port a.port,
    protocol_eq_iff a.protocol protocol,
    protocol_eq_iff b.protocol protocol,
    protocol_eq_iff b.protocol a.protocol,
    eq_iff a.bind_address address,
    eq_iff b.bind_address address,
    eq_iff b.bind_address a.bind_address,
  )

  abbrev pub heads : Group → Bool
  heads g = has_key port protocol address g.first

  -- An observation opens a group exactly if there is none for its key.
  heads-add_to_groups :
      (o : Observation) (gs : List Group)
      → length (select heads (add_to_groups o gs)) ≡ (
          if has_key port protocol address o && (length (select heads gs) == 0)
          then 1
          else length (select heads gs))
  unfolding add_to_groups
  heads-add_to_groups o [] = ground arith
  heads-add_to_groups o (g ∷ gs) =
      let old = length-select-cons heads g gs in
      elim (Bool-cases (same_key g.first o)) [
        | inl s ↦ rw s (
            length-select-cons heads (record g { rest = g.rest ++ o ∷ [] }) gs
            ∙ joined (heads g) (has_key port protocol address o) (length (select heads gs))
                (has_key-same_key g.first o s)
            ∙ ap (λ n. if has_key port protocol address o && (n == 0) then 1 else n) (sym old))
        | inr d ↦ rw d (
            length-select-cons heads g (add_to_groups o gs)
            ∙ ap (λ n. if heads g then suc n else n) (heads-add_to_groups o gs)
            ∙ apart (heads g) (has_key port protocol address o) (length (select heads gs))
                (λ x y. cc (d, both_same_key g.first o x y))
            ∙ ap (λ n. if has_key port protocol address o && (n == 0) then 1 else n) (sym old))
      ]

  pub heads-group_all :
      (gs : List Group) (os : List Observation)
      → length (select heads (group_all gs os)) ≡ (
          if length (select heads gs) == 0
          then (if any (has_key port protocol address) os then 1 else 0)
          else length (select heads gs))
  unfolding group_all
  heads-group_all gs [] = ground arith
  heads-group_all gs (o ∷ os) =
      ground (arith, heads-group_all (add_to_groups o gs) os, heads-add_to_groups o gs)

  -- All observations of a group have its key.
  abbrev pub IsUniform : Group → Type 0
  IsUniform g =
      All (λ o. has_key port protocol address o ≡ has_key port protocol address g.first) g.rest

  add_to_groups-IsUniform :
      (o : Observation) (gs : List Group) → All IsUniform gs → All IsUniform (add_to_groups o gs)
  unfolding add_to_groups
  add_to_groups-IsUniform o [] u = (tt, tt)
  add_to_groups-IsUniform o (g ∷ gs) u = elim (Bool-cases (same_key g.first o)) [
    | inl s ↦ rw s (
      All-append (λ x. has_key port protocol address x ≡ has_key port protocol address g.first)
          g.rest (o ∷ []) u.0 (sym (has_key-same_key g.first o s), tt),
      u.1,
    )
    | inr d ↦ rw d (u.0, add_to_groups-IsUniform o gs u.1)
  ]

  pub group_all-IsUniform :
      (gs : List Group) (os : List Observation) → All IsUniform gs → All IsUniform (group_all gs os)
  unfolding group_all
  group_all-IsUniform gs [] u = u
  group_all-IsUniform gs (o ∷ os) u =
      group_all-IsUniform (add_to_groups o gs) os (add_to_groups-IsUniform o gs u)

  module _ (b : Bool) where
    abbrev Keyed : Observation → Type 0
    Keyed o = has_key port protocol address o ≡ b

    insert_ranked-Keyed :
        (o : Observation) (os : List Observation)
        → Keyed o
        → All Keyed os
        → All Keyed (insert_ranked o os)
    unfolding insert_ranked
    insert_ranked-Keyed o [] h hs = (h, tt)
    insert_ranked-Keyed o (x ∷ os) h hs =
        elim (Bool-cases (key_lt (observation_sort_key o) (observation_sort_key x))) [
          | inl l ↦ rw l (hs.0, insert_ranked-Keyed o os h hs.1)
          | inr l ↦ rw l (h, hs)
        ]

    ranked-Keyed : (os : List Observation) → All Keyed os → All Keyed (ranked os)
    unfolding ranked
    ranked-Keyed [] hs = tt
    ranked-Keyed (o ∷ os) hs = insert_ranked-Keyed o (ranked os) hs.0 (ranked-Keyed os hs.1)

    backfill-Keyed :
        (has_value : Observation → Bool) (copy : Observation → Observation → Observation)
        (runners : List Observation) (target : Observation)
        → ((x y : Observation)
            → has_key port protocol address (copy x y) ≡ has_key port protocol address x)
        → Keyed target
        → Keyed (backfill has_value copy runners target)
    backfill-Keyed has_value copy runners target keep h =
        from_choice (has_value target) (find? has_value runners)
      where
        from_choice :
            (c : Bool) (o : Option Observation) → Keyed (if c then target else copied copy target o)
        from_choice true o = h
        from_choice false none = h
        from_choice false (some y) = keep target y ∙ h

    merge_ranked-Keyed :
        (first : Observation) (rest os : List Observation)
        → Keyed first
        → All Keyed os
        → Keyed (merge_ranked first rest os)
    unfolding merge_ranked has_key
    merge_ranked-Keyed first rest [] h hs = h
    merge_ranked-Keyed first rest (p ∷ os) h hs =
        backfill-Keyed (λ o. is_truthy o.project_name) copy_project os
          (backfill has_detection copy_detection os
            (backfill has_container copy_container os (backfill has_process copy_process os p)))
          (λ x y. refl)
          (backfill-Keyed has_detection copy_detection os
            (backfill has_container copy_container os (backfill has_process copy_process os p))
            (λ x y. refl)
            (backfill-Keyed has_container copy_container os (backfill has_process copy_process os p)
              (λ x y. refl) (backfill-Keyed has_process copy_process os p (λ x y. refl) hs.0)))

  merge-Keyed :
      (b : Bool) (first : Observation) (rest : List Observation)
      → Keyed b first
      → All (Keyed b) rest
      → Keyed b (merge_observation_group first rest)
  unfolding merge_observation_group
  merge-Keyed b first rest h hs =
      merge_ranked-Keyed b first rest (ranked (first ∷ rest)) h
        (ranked-Keyed b (first ∷ rest) (h, hs))

  -- The canonical observation of a group has its key.
  pub canonical_of-key :
      (g : Group) → IsUniform g → has_key port protocol address (canonical_of g) ≡ heads g
  unfolding canonical_of
  canonical_of-key g u = over g.rest u
    where
      over :
          (rest : List Observation)
          → All (λ o. has_key port protocol address o ≡ has_key port protocol address g.first) rest
          → has_key port protocol address (canonical_over g.first rest) ≡ heads g
      over [] h = refl
      over (o ∷ os) h = merge-Keyed (heads g) g.first (o ∷ os) refl h
