-- ===== src/Results/Percent.antt =====
-- How far the percentages of the live results are from the exact shares.
use native.Mathlib.Nat.{div-add-mod, mod-lt}
use pulsepoll_hcl_guvi.Prelude.{
  ℕ, zero, suc, refl, ◌+◌, ◌*◌, ◌/◌, ◌≤◌, ◌<◌, ◌≡◌, false, List, [], ◌∷◌, sum_of, length, arith,
  map, Option, String, Bool,
}
use pulsepoll_hcl_guvi.Results.{
  Entry, Results, Payload, votes_of, percent, round_tenths, or_nullish, is_foreign, update_entry,
  apply_vote, max_votes, row, panel,
}

floor_bounds : (n d : ℕ) → 0 < d → (d * (n / d) ≤ n) × (n < d * (n / d) + d)
floor_bounds n d h = (omega (arith, div-add-mod n d), omega (arith, div-add-mod n d, mod-lt n h))

percent-eq_round_tenths :
    (count total : ℕ) → 0 < total → percent count total ≡ 10 * round_tenths count total
unfolding percent
percent-eq_round_tenths count total h = ground arith

-- `round_tenths` is the share in tenths of a percent, rounded to the nearest with halves upwards.
round_tenths_nearest :
    (count total : ℕ)
    → 0 < total
    → (2 * (total * round_tenths count total) ≤ 2 * (1000 * count) + total)
      × (2 * (1000 * count) < 2 * (total * round_tenths count total) + total)
round_tenths_nearest count total h =
    let (lo, hi) = floor_bounds (2 * (1000 * count) + total) (2 * total) (omega arith) in
    (omega (arith, lo), omega (arith, hi))

percent_nearest :
    (count total : ℕ)
    → 0 < total
    → (2 * (total * percent count total) ≤ 2 * (10000 * count) + 10 * total)
      × (2 * (10000 * count) < 2 * (total * percent count total) + 10 * total)
percent_nearest count total h =
    let (lo, hi) = round_tenths_nearest count total h in
    rw (percent-eq_round_tenths count total h) (omega (arith, lo), omega (arith, hi))

round_tenths-le : (count total : ℕ) → 0 < total → count ≤ total → round_tenths count total ≤ 1000
round_tenths-le count total h le = grind (arith, round_tenths_nearest count total h)

percent-le : (count total : ℕ) → 0 < total → count ≤ total → percent count total ≤ 10000
percent-le count total h le =
    rw (percent-eq_round_tenths count total h) (omega (arith, round_tenths-le count total h le))

percent-zero : (count : ℕ) → percent count 0 ≡ 0
unfolding percent
percent-zero count = refl

-- A percentage lies between 0 and 100, and is the exact share rounded to the nearest tenth of a
-- percent with halves upwards; of no votes at all it is 0.
pub percent_lem :
    (count total : ℕ)
    → count ≤ total
    → (percent count total ≤ 10000)
      × (2 * (total * percent count total) ≤ 2 * (10000 * count) + 10 * total)
      × (2 * (10000 * count) ≤ 2 * (total * percent count total) + 10 * total)
      × (percent count 0 ≡ 0)
percent_lem count zero le = ground (arith, percent-zero count)
percent_lem count (suc t) le =
    let (lo, hi) = percent_nearest count (suc t) (omega arith) in
    (percent-le count (suc t) (omega arith) le, lo, omega arith, percent-zero count)

le_of_mul : (k : ℕ) {a b : ℕ} → 0 < k → k * a ≤ k * b → a ≤ b
le_of_mul k h le = grind arith

-- the sum of the percentages that are computed for the entries
abbrev sum_percent : ℕ → List Entry → ℕ
sum_percent total = sum_of (λ e. percent (votes_of e) total)

sum_percent_nearest :
    (total : ℕ) (es : List Entry)
    → 0 < total
    → (2 * (total * sum_percent total es)
        ≤ 2 * (10000 * sum_of votes_of es) + 10 * (length es * total))
      × (2 * (10000 * sum_of votes_of es)
          ≤ 2 * (total * sum_percent total es) + 10 * (length es * total))
sum_percent_nearest total [] h = omega arith
sum_percent_nearest total (e ∷ es) h =
    omega (arith, percent_nearest (votes_of e) total h, sum_percent_nearest total es h)

nearest_scaled :
    (total : ℕ) (es : List Entry)
    → 0 < total
    → sum_of votes_of es ≡ total
    → (2 * sum_percent total es ≤ 20000 + 10 * length es)
      × (20000 ≤ 2 * sum_percent total es + 10 * length es)
nearest_scaled total es pos sum =
    let (lo, hi) = sum_percent_nearest total es pos in
    let lo' : total * (2 * sum_percent total es) ≤ total * (20000 + 10 * length es) = omega arith in
    let hi' : total * 20000 ≤ total * (2 * sum_percent total es + 10 * length es) = omega arith in
    (le_of_mul total pos lo', le_of_mul total pos hi')

shown-update :
    (p : Payload) (u : Option String) (total best : ℕ) (es : List Entry)
    → sum_of (λ w. w.percentage) (map (row u total best) (map (update_entry p total) es))
      ≡ sum_percent total (map (update_entry p total) es)
unfolding row update_entry
shown-update p u total best [] = refl
shown-update p u total best (e ∷ es) = omega (arith, shown-update p u total best es)

-- After a vote update, if the counts add up to a positive total, the percentages that the page
-- shows add up to 100 with an error of at most a twentieth of a percent for each option.
pub panel_percentages :
    (poll_id : String) (p : Payload) (r : Results) (u : Option String) (is_closed : Bool)
    → is_foreign poll_id p ≡ false
    → 0 < (apply_vote poll_id p r).total
    → sum_of votes_of (apply_vote poll_id p r).options ≡ (apply_vote poll_id p r).total
    → let shown = sum_of (λ w. w.percentage) (panel (apply_vote poll_id p r) u is_closed).rows in
      let n = length (apply_vote poll_id p r).options in
      (2 * shown ≤ 20000 + 10 * n) × (20000 ≤ 2 * shown + 10 * n)
unfolding apply_vote panel
panel_percentages poll_id p r u is_closed own pos sum =
    let total = or_nullish p.total_votes (r.total + 1) in
    let es = map (update_entry p total) r.options in
    let pos' : 0 < total = rw own at pos in
    let sum' : sum_of votes_of es ≡ total = rw own at sum in
    let (lo, hi) = nearest_scaled total es pos' sum' in
    rw own (rw (shown-update p u total (max_votes es) r.options) (lo, hi))
