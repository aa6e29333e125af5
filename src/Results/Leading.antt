-- ===== src/Results/Leading.antt =====
-- Which options of the live results are marked as leading.
use pulsepoll_hcl_guvi.Prelude.{
  ℕ, ◌≤◌, ◌<◌, ◌≡◌, true, String, Option, List, [], ◌∷◌, All, ltb, arith, ◌↔◌, if◌then◌else◌, Memᴰ,
}
use pulsepoll_hcl_guvi.Results.{Entry, Results, votes_of, max_from, max_votes, row}

max_from_le : (best : ℕ) (es : List Entry) → best ≤ max_from best es
unfolding max_from
max_from_le best [] = omega arith
max_from_le best (e ∷ es) =
    ground (arith, max_from_le (if ltb best (votes_of e) then votes_of e else best) es)

All-le-max_from : (best : ℕ) (es : List Entry) → All (λ e. votes_of e ≤ max_from best es) es
unfolding max_from
All-le-max_from best [] = tt
All-le-max_from best (e ∷ es) =
    let next = if ltb best (votes_of e) then votes_of e else best in
    (ground (arith, max_from_le next es), All-le-max_from next es)

max_from_least :
    (best n : ℕ) (es : List Entry) → best ≤ n → All (λ e. votes_of e ≤ n) es → max_from best es ≤ n
unfolding max_from
max_from_least best n [] h _ = h
max_from_least best n (e ∷ es) h (k, ks) =
    max_from_least (if ltb best (votes_of e) then votes_of e else best) n es (ground arith) ks

le-max_from : (best : ℕ) (es : List Entry) (e : Entry) → Memᴰ e es → votes_of e ≤ max_from best es
unfolding max_from
le-max_from best [] e m = elim m [ ]
le-max_from best (f ∷ es) e (Memᴰ.head same) =
    let next = if ltb best (votes_of f) then votes_of f else best in
    ground (arith, max_from_le next es)
le-max_from best (f ∷ es) e (Memᴰ.tail m) =
    le-max_from (if ltb best (votes_of f) then votes_of f else best) es e m

All-le_trans :
    (m n : ℕ) (es : List Entry)
    → m ≤ n
    → All (λ f. votes_of f ≤ m) es
    → All (λ f. votes_of f ≤ n) es
All-le_trans m n [] h _ = tt
All-le_trans m n (e ∷ es) h (k, ks) = (omega arith, All-le_trans m n es h ks)

-- The row of an option is marked as leading exactly where there are votes and no option has more
-- votes than it.
pub row-leading :
    (r : Results) (u : Option String) (e : Entry)
    → Memᴰ e r.options
    → ((row u r.total (max_votes r.options) e).is_leading ≡ true)
      ↔ ((0 < r.total) × All (λ f. votes_of f ≤ votes_of e) r.options)
unfolding row max_votes
row-leading r u e m = (
  λ h. (
    ground arith,
    All-le_trans (max_from 0 r.options) (votes_of e) r.options (ground arith)
        (All-le-max_from 0 r.options),
  ),
  λ h. ground (
    arith,
    le-max_from 0 r.options e m,
    max_from_least 0 (votes_of e) r.options (omega arith) h.1,
  ),
)
