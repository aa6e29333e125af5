-- ===== src/HomePage/Votes.antt =====
-- The counts of the sample poll.
use pulsepoll_hcl_guvi.Prelude.{
  ℕ, ◌+◌, ◌≡◌, Bool, true, false, none, some, List, [], ◌∷◌, arith, if◌then◌else◌,
}
use pulsepoll_hcl_guvi.HomePage.{
  Key, hybrid, remote, office, Demo, Tally, handle_vote, start, total, add_vote, is_selected, Event,
  click, tick, flash_over, step, run,
}

abbrev pub ticks : List Event → ℕ
ticks [] = 0
ticks (tick k ∷ es) = ticks es + 1
ticks (_ ∷ es) = ticks es

abbrev pub clicked : List Event → Bool
clicked [] = false
clicked (click k ∷ es) = true
clicked (_ ∷ es) = clicked es

total-add_vote : (k : Key) (t : Tally) → total (add_vote k t) ≡ total t + 1
total-add_vote hybrid t = omega arith
total-add_vote remote t = omega arith
total-add_vote office t = omega arith

run_total :
    (d : Demo) (es : List Event)
    → total (run d es).votes
      ≡ total d.votes
        + ticks es
        + (if is_selected d.selected then 0 else if clicked es then 1 else 0)
unfolding run step handle_vote
run_total d [] = ground arith
run_total d (click k ∷ es) =
    ground (arith, run_total (handle_vote k d) es, total-add_vote k d.votes)
run_total d (tick k ∷ es) = ground (
  arith,
  run_total (record d { votes = add_vote k d.votes; last_voted = some k }) es,
  total-add_vote k d.votes,
)
run_total d (flash_over ∷ es) = run_total (record d { last_voted = none }) es

-- The sample poll starts with 106 votes, gains one at each tick of its timer, and one in all from
-- the visitor, however often an option is clicked.
pub sample_total :
    (es : List Event) → total (run start es).votes ≡ 106 + ticks es + (if clicked es then 1 else 0)
unfolding start
sample_total es = run_total start es
