-- ===== src/Central/Canonical/Unique.antt =====
-- One canonical observation for each binding, and what a snapshot without duplicates becomes.
use port_forge.Prelude.{
  ℕ, suc, ◌+◌, ◌≤◌, String, Option, none, some, List, [], ◌∷◌, map, Bool, true, false, ◌≡◌, refl,
  sym, ap, ◌∙◌, arith, All, is_truthy, find?, any, select, length, length-select-cons,
  if◌then◌else◌,
}
use port_forge.Central.Vocabulary.{Protocol}
use port_forge.Central.Tables.{Observation}
use port_forge.Central.Canonical.{
  has_key, Group, add_to_groups, group_all, canonical_of, canonicalize_observations,
  merge_observation_group, merge_ranked, ranked, insert_ranked, key_lt, observation_sort_key,
  has_process, has_container, has_detection, copy_process, copy_container, copy_detection,
  copy_project, copied, backfill,
}
use port_forge.Central.Canonical.Groups.{
  heads, heads-group_all, IsUniform, group_all-IsUniform, canonical_of-key,
}

module _ (port : ℕ) (protocol : Protocol) (address : String) where
  canonical_count :
      (gs : List Group)
      → All (IsUniform port protocol address) gs
      → length (select (has_key port protocol address) (map canonical_of gs))
        ≡ length (select (heads port protocol address) gs)
  canonical_count [] u = refl
  canonical_count (g ∷ gs) u =
      length-select-cons (has_key port protocol address) (canonical_of g) (map canonical_of gs)
      ∙ ap
          (λ b.
            if b
            then suc (length (select (has_key port protocol address) (map canonical_of gs)))
            else length (select (has_key port protocol address) (map canonical_of gs)))
          (canonical_of-key port protocol address g u.0)
      ∙ ap (λ n. if heads port protocol address g then suc n else n) (canonical_count gs u.1)
      ∙ sym (length-select-cons (heads port protocol address) g gs)

length-map {ℓ κ} :
    {A : Type ℓ} {B : Type κ} (f : A → B) (xs : List A) → length (map f xs) ≡ length xs
length-map f [] = refl
length-map f (x ∷ xs) = ap suc (length-map f xs)

length-add_to_groups-le :
    (o : Observation) (gs : List Group) → length (add_to_groups o gs) ≤ suc (length gs)
unfolding add_to_groups
length-add_to_groups-le o [] = omega arith
length-add_to_groups-le o (g ∷ gs) = ground (arith, length-add_to_groups-le o gs)

length-group_all-le :
    (gs : List Group) (os : List Observation) → length (group_all gs os) ≤ length gs + length os
unfolding group_all
length-group_all-le gs [] = omega arith
length-group_all-le gs (o ∷ os) =
    omega (arith, length-group_all-le (add_to_groups o gs) os, length-add_to_groups-le o gs)

-- The canonical observations of a snapshot have each binding of the snapshot exactly once and no
-- other binding, and with the number that is reported as merged they are as many as the snapshot's.
pub canonicalize_once :
    (observations : List Observation)
    → ((port : ℕ) (protocol : Protocol) (address : String)
        → length (select (has_key port protocol address) (canonicalize_observations observations).0)
          ≡ (if any (has_key port protocol address) observations then 1 else 0))
      × (length (canonicalize_observations observations).0
            + (canonicalize_observations observations).1
          ≡ length observations)
unfolding canonicalize_observations
canonicalize_once observations =
    let gs = group_all [] observations in
    (
      λ port protocol address.
          canonical_count port protocol address gs
            (group_all-IsUniform port protocol address [] observations (tt))
          ∙ heads-group_all port protocol address [] observations,
      omega (arith, length-map canonical_of gs, length-group_all-le [] observations),
    )

backfill-state :
    (has_value : Observation → Bool) (copy : Observation → Observation → Observation)
    (runners : List Observation) (target : Observation)
    → ((x y : Observation) → (copy x y).state ≡ x.state)
    → (backfill has_value copy runners target).state ≡ target.state
backfill-state has_value copy runners target keep =
    from_choice (has_value target) (find? has_value runners)
  where
    from_choice :
        (c : Bool) (o : Option Observation)
        → (if c then target else copied copy target o).state ≡ target.state
    from_choice true o = refl
    from_choice false none = refl
    from_choice false (some y) = keep target y

merge_ranked-state :
    (first : Observation) (rest : List Observation) (p : Observation) (os : List Observation)
    → (merge_ranked first rest (p ∷ os)).state ≡ p.state
unfolding merge_ranked
merge_ranked-state first rest p os =
    let one = backfill has_process copy_process os p in
    let two = backfill has_container copy_container os one in
    let three = backfill has_detection copy_detection os two in
    backfill-state (λ o. is_truthy o.project_name) copy_project os three (λ x y. refl)
    ∙ backfill-state has_detection copy_detection os two (λ x y. refl)
    ∙ backfill-state has_container copy_container os one (λ x y. refl)
    ∙ backfill-state has_process copy_process os p (λ x y. refl)

ranked_pair :
    (a b : Observation)
    → key_lt (observation_sort_key a) (observation_sort_key b) ≡ false
    → ranked (a ∷ b ∷ []) ≡ a ∷ b ∷ []
unfolding ranked insert_ranked
ranked_pair a b h = rw h refl

merge_pair :
    (a b : Observation)
    → key_lt (observation_sort_key a) (observation_sort_key b) ≡ false
    → (merge_observation_group a (b ∷ [])).state ≡ a.state
unfolding merge_observation_group
merge_pair a b h =
    ap (λ l. (merge_ranked a (b ∷ []) l).state) (ranked_pair a b h)
    ∙ merge_ranked-state a (b ∷ []) a (b ∷ [])

-- Of two observations of one binding that tie in every component of the sort key, the merged one has
-- the state of that which came first in the snapshot, in either order.
pub merge_ties :
    (a b : Observation)
    → key_lt (observation_sort_key a) (observation_sort_key b) ≡ false
    → key_lt (observation_sort_key b) (observation_sort_key a) ≡ false
    → ((merge_observation_group a (b ∷ [])).state ≡ a.state)
      × ((merge_observation_group b (a ∷ [])).state ≡ b.state)
merge_ties a b h k = (merge_pair a b h, merge_pair b a k)
