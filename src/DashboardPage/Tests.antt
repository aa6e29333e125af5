-- ===== src/DashboardPage/Tests.antt =====
-- The theorems on the dashboard at two polls.
use pulsepoll_hcl_guvi.Prelude.{
  arith, true, ◌+◌, ◌≡◌, refl, String, false, none, some, [], ◌∷◌, map,
}
use pulsepoll_hcl_guvi.Results.{Poll}
use pulsepoll_hcl_guvi.Auth.{ok, Failure}
use pulsepoll_hcl_guvi.DashboardPage.{
  Page, Fetched, active, closed, start, filtered, numbers, active_count, closed_count, listing,
  handle_delete, none_match, delete_answered,
}
use pulsepoll_hcl_guvi.DashboardPage.Workspace.{fetched, press_delete, deleted, step, run, bar}
use pulsepoll_hcl_guvi.DashboardPage.Refresh.{refresh_overtakes_delete}

abbrev poll : String → String → Poll
poll i status = record {
  id = i;
  question = "Where to eat?";
  options = [];
  status = status;
  created_at = none;
  expires_at = none;
}

abbrev two_polls : Page
two_polls = record start {
  polls = poll "p1" "active" ∷ poll "p2" "closed" ∷ [];
  total_count = 2;
  loading = false;
}

abbrev forbidden : Failure
forbidden = record { message = "Forbidden"; status = 403; code = "FORBIDDEN" }

dashboard_test :
    (map (λ q. q.id) (filtered (record two_polls { filter = closed })) ≡ "p2" ∷ [])
    × (listing (record two_polls { filter = active; polls = [] }) ≡ none_match)
    × ((numbers two_polls).closed_metric ≡ some 1)
    × (map (λ q. q.id) (delete_answered "p1" (ok tt) two_polls).polls ≡ "p2" ∷ [])
unfolding start filtered listing numbers active_count closed_count delete_answered
dashboard_test = (refl, refl, refl, refl)

abbrev deleting_p1 : Page
deleting_p1 = record two_polls { deleting = "p1" ∷ [] }

workspace_test :
    (run two_polls (press_delete true "p1" ∷ press_delete true "p9" ∷ [])
      ≡ record two_polls { deleting = "p1" ∷ [] })
    × ((bar none two_polls).title ≡ "My Polls")
unfolding run step handle_delete filtered start bar
workspace_test = (refl, refl)

refresh_overtakes_delete_example :
    let answer : Fetched = record {
      polls = some (poll "p2" "closed" ∷ []);
      total_count = some 1;
    } in
    let q = step (step deleting_p1 (fetched (ok answer))) (deleted "p1" (ok tt)) in
    (q.polls ≡ poll "p2" "closed" ∷ []) × (q.total_count + 1 ≡ 1)
unfolding start
refresh_overtakes_delete_example =
    refresh_overtakes_delete deleting_p1 "p1" (poll "p2" "closed" ∷ []) 1 refl refl (omega arith)
