-- ===== src/PollCard/Preview.antt =====
-- The badge and the preview of a card.
use pulsepoll_hcl_guvi.Prelude.{
  ℕ, zero, suc, min, ◌+◌, ◌≤◌, ◌≡◌, ◌≢◌, ◌↔◌, String, Bool, false, List, [], ◌∷◌, take, length,
  length-map, arith, eq_iff,
}
use pulsepoll_hcl_guvi.Results.{Poll, PollOption, or_nullish}
use pulsepoll_hcl_guvi.PollCard.{badge, card, is_past}

length-take : (n : ℕ) (xs : List PollOption) → length (take n xs) ≡ min n (length xs)
length-take zero xs = omega arith
length-take (suc n) [] = omega arith
length-take (suc n) (x ∷ xs) = omega (arith, length-take n xs)

badge_active :
    (poll : Poll) (now : ℕ)
    → (badge poll now ≡ "Active")
      ↔ ((poll.status ≢ "closed") × (is_past poll.expires_at now ≡ false))
unfolding badge
badge_active poll now =
    ground (
      arith,
      eq_iff poll.status "closed",
      eq_iff "Voting Closed" "Active",
      eq_iff "Expired" "Active",
    )

-- The options in the preview and the number behind "+" make up all options, and at most three are
-- in the preview; the badge says "Active" exactly for a poll that is neither closed nor past its
-- deadline.
pub card_lem :
    (origin : String) (poll : Poll) (now : ℕ) (copied can_delete : Bool)
    → let c = card origin poll now copied can_delete in
      (length c.preview + or_nullish c.more 0 ≡ length poll.options)
      × (length c.preview ≤ 3)
      × ((c.badge ≡ "Active") ↔ ((poll.status ≢ "closed") × (is_past poll.expires_at now ≡ false)))
unfolding card
card_lem origin poll now copied can_delete =
    let cut = length-take 3 poll.options in
    let texts = length-map (λ (o : PollOption). o.text) (take 3 poll.options) in
    (ground (arith, cut, texts), omega (arith, cut, texts), badge_active poll now)
