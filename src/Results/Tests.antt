-- ===== src/Results/Tests.antt =====
-- The theorems on the live results at one poll with three votes.
use pulsepoll_hcl_guvi.Prelude.{
  ℕ, ◌+◌, ◌*◌, ◌≤◌, ◌≡◌, refl, inl, inr, true, false, String, none, some, [], ◌∷◌, map, sum_of,
  length, arith,
}
use pulsepoll_hcl_guvi.Results.{
  Entry, Results, Payload, votes_of, percent, is_foreign, apply_vote, update_entry, max_votes, row,
  panel,
}
use pulsepoll_hcl_guvi.Results.Percent.{panel_percentages}
use pulsepoll_hcl_guvi.Results.Updates.{apply_vote-sum}

abbrev entry : String → String → ℕ → Entry
entry i text n = record {
  option_id = some i;
  id = none;
  text = text;
  count = some n;
  votes = none;
  percentage = none;
}

abbrev counted : Results
counted = record { options = entry "a" "Thai" 2 ∷ entry "b" "Pizza" 1 ∷ []; total = 3 }

abbrev one_more : Payload
one_more = record {
  poll_id = some "p1";
  options = none;
  option_id = some "b";
  count = 2;
  total_votes = some 4;
}

abbrev whole : Payload
whole = record {
  poll_id = none;
  options = some counted.options;
  option_id = none;
  count = 0;
  total_votes = some 3;
}

results_test :
    (map votes_of (apply_vote "p1" one_more counted).options ≡ 2 ∷ 2 ∷ [])
    × ((apply_vote "p1" one_more counted).total ≡ 4)
    × (apply_vote "p2" one_more counted ≡ counted)
    × (map (λ w. w.percentage) (panel counted (some "a") false).rows ≡ 6670 ∷ 3330 ∷ [])
    × (map (λ w. w.is_leading) (panel counted (some "a") false).rows ≡ true ∷ false ∷ [])
unfolding apply_vote is_foreign panel percent max_votes row update_entry
results_test = (refl, refl, refl, refl, refl)

panel_percentages_example :
    let shown =
      sum_of (λ w. w.percentage) (panel (apply_vote "p1" one_more counted) none false).rows in
    let n = length (apply_vote "p1" one_more counted).options in
    (2 * shown ≤ 20000 + 10 * n) × (20000 ≤ 2 * shown + 10 * n)
unfolding apply_vote is_foreign update_entry
panel_percentages_example =
    panel_percentages "p1" one_more counted none false refl (omega arith) refl

apply_vote-sum_example :
    sum_of votes_of (apply_vote "p1" one_more counted).options
    ≡ (apply_vote "p1" one_more counted).total
apply_vote-sum_example =
    apply_vote-sum "p1" one_more counted (inr (refl, inl (refl, refl, tt))) (inr refl) refl
