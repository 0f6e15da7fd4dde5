-- ===== src/Agent/Purpose.antt =====
-- The purpose that a port is taken to have, from the signals of its facts: `_resolve` of
-- agent/portforge_agent/detection/purpose.py. A dictionary of counts is the list of its entries.
pub mod Votes
pub mod Majority
use port_forge.Prelude.{
  ℕ, suc, String, Option, none, some, List, [], ◌∷◌, map, Bool, true, false, ◌==◌, ltb, find?,
  select, length, str_eq, if◌then◌else◌,
}

pub data Confidence : Type 0 where
  high medium low unknown : Confidence

pub record Signal : Type 0 where
  pub category : String
  pub purpose : String
  pub evidence : String

pub record PurposeDetectionResult : Type 0 where
  pub purpose : Option String
  pub category : String
  pub confidence : Confidence
  pub method : String
  pub evidence : List String

-- `votes[s.category] = votes.get(s.category, 0) + 1`
unfoldable pub vote : String → List (String × ℕ) → List (String × ℕ)
vote c [] = (c, 1) ∷ []
vote c ((d, n) ∷ vs) = let rest = vote c vs in if str_eq d c then (d, suc n) ∷ vs else (d, n) ∷ rest

unfoldable pub tally : List (String × ℕ) → List Signal → List (String × ℕ)
unfolding vote
tally vs [] = vs
tally vs (s ∷ ss) = tally (vote s.category vs) ss

abbrev pub larger : ℕ → ℕ → ℕ
larger a b = if ltb a b then b else a

abbrev pub max_votes : List (String × ℕ) → ℕ
max_votes [] = 0
max_votes (v ∷ vs) = larger v.1 (max_votes vs)

abbrev pub leading : List (String × ℕ) → List (String × ℕ)
leading vs = select (λ v. v.1 == max_votes vs) vs

abbrev pub evidence_of : List Signal → List String
evidence_of ss = map (λ s. s.evidence) ss

abbrev purpose_of : String → List Signal → Option String
purpose_of c ss = elim (find? (λ s. str_eq s.category c) ss) [
  | none ↦ none
  | some s ↦ some s.purpose
]

abbrev tied : List Signal → PurposeDetectionResult
tied ss = record {
  purpose = none;
  category = "unknown";
  confidence = low;
  method = "conflicting_evidence";
  evidence = evidence_of ss;
}

unfoldable pub by_majority : List Signal → List (String × ℕ) → PurposeDetectionResult
by_majority ss [] = tied ss
by_majority ss (v ∷ []) = record {
  purpose = purpose_of v.0 ss;
  category = v.0;
  confidence = medium;
  method = "rule_based_majority";
  evidence = evidence_of ss;
}
by_majority ss (v ∷ w ∷ vs) = tied ss

unfoldable pub agreed : Signal → List Signal → PurposeDetectionResult
agreed s ss = record {
  purpose = some s.purpose;
  category = s.category;
  confidence = high;
  method = if ltb 1 (length (s ∷ ss)) then "rule_based_agreement" else "rule_based";
  evidence = evidence_of (s ∷ ss);
}

unfoldable pub resolve_signals : List Signal → PurposeDetectionResult
unfolding tally by_majority agreed
resolve_signals [] = record {
  purpose = none;
  category = "unknown";
  confidence = unknown;
  method = "no_evidence";
  evidence = [];
}
resolve_signals (s ∷ ss) =
    let votes = tally [] (s ∷ ss) in
    if length votes == 1 then agreed s ss else by_majority (s ∷ ss) (leading votes)
