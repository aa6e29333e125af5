-- ===== src/HomePage.antt =====
-- The sample poll of frontend/src/pages/HomePage.jsx: its state, its timer and its buttons. The
-- rest of the page is fixed text.
mod Votes
mod View
mod Tests
use pulsepoll_hcl_guvi.Prelude.{
  ℕ, ◌+◌, ◌*◌, ◌/◌, Bool, true, false, Option, none, some, List, [], ◌∷◌, ltb, if◌then◌else◌,
}

pub data Key : Type 0 where
  hybrid remote office : Key

-- `demoVotes`
pub record Tally : Type 0 where
  pub hybrid : ℕ
  pub remote : ℕ
  pub office : ℕ

pub record Demo : Type 0 where
  pub selected : Option Key
  pub votes : Tally
  pub last_voted : Option Key

unfoldable pub start : Demo
start = record {
  selected = none;
  votes = record { hybrid = 52; remote = 38; office = 16 };
  last_voted = none;
}

-- `demoTotal`
abbrev pub total : Tally → ℕ
total t = t.hybrid + t.remote + t.office

-- `getPercent`, with the exact quotient
unfoldable pub get_percent : Tally → ℕ → ℕ
get_percent t count = if ltb 0 (total t) then (2 * (100 * count) + total t) / (2 * total t) else 0

abbrev pub add_vote : Key → Tally → Tally
add_vote Key.hybrid t = record t { hybrid = t.hybrid + 1 }
add_vote Key.remote t = record t { remote = t.remote + 1 }
add_vote Key.office t = record t { office = t.office + 1 }

abbrev pub is_selected : Option Key → Bool
is_selected none = false
is_selected (some _) = true

-- `handleDemoVote`
unfoldable pub handle_vote : Key → Demo → Demo
handle_vote k d =
    if is_selected d.selected
    then d
    else record d { selected = some k; votes = add_vote k d.votes; last_voted = some k }

-- What happens to the sample poll: a click on an option, a tick of the timer with the option that
-- `Math.random` picks, and the end of the flash.
pub data Event : Type 0 where
  click tick : Key → Event
  flash_over : Event

unfoldable pub step : Demo → Event → Demo
unfolding handle_vote
step d (click k) = handle_vote k d
step d (tick k) = record d { votes = add_vote k d.votes; last_voted = some k }
step d flash_over = record d { last_voted = none }

unfoldable pub run : Demo → List Event → Demo
run d [] = d
run d (e ∷ es) = run (step d e) es
