-- ===== src/HomePage/Tests.antt =====
-- The sample poll at one run.
use pulsepoll_hcl_guvi.Prelude.{◌≡◌, refl, List, [], ◌∷◌}
use pulsepoll_hcl_guvi.HomePage.{
  hybrid, remote, office, Event, click, tick, flash_over, handle_vote, start, step, run,
  get_percent,
}

abbrev visit : List Event
visit = tick office ∷ click hybrid ∷ flash_over ∷ click remote ∷ tick office ∷ []

visit_test : ((run start visit).votes.office ≡ 18) × (get_percent start.votes 52 ≡ 49)
unfolding start run step handle_vote get_percent
visit_test = (refl, refl)
