-- ===== src/DashboardPage/Refresh.antt =====
-- A list that is fetched while a poll is being deleted.
use pulsepoll_hcl_guvi.Prelude.{
  ℕ, ◌+◌, ◌≤◌, ◌≡◌, refl, String, true, false, not, some, List, [], ◌∷◌, keep_if, arith, ◌==◌,
}
use pulsepoll_hcl_guvi.Auth.{ok}
use pulsepoll_hcl_guvi.Results.{Poll}
use pulsepoll_hcl_guvi.DashboardPage.{Page, Fetched, polls_arrived, delete_answered}
use pulsepoll_hcl_guvi.DashboardPage.Workspace.{fetched, deleted, names, lists, step}

unlisted_kept :
    (i : String) (qs : List Poll) → lists i qs ≡ false → keep_if (λ q. not (q.id == i)) qs ≡ qs
unlisted_kept i [] h = refl
unlisted_kept i (q ∷ qs) h = ground (arith, unlisted_kept i qs)

-- Suppose that polls remain on the server, `n` in number. If their list is fetched while a deletion
-- that the server has carried out is under way, so that the list is without the deleted poll, then
-- after the deletion's answer the page has the fetched list and counts one poll less than the
-- server.
pub refresh_overtakes_delete :
    (p : Page) (i : String) (qs : List Poll) (n : ℕ)
    → names i p.deleting ≡ true
    → lists i qs ≡ false
    → 1 ≤ n
    → let answer : Fetched = record { polls = some qs; total_count = some n } in
      let q = step (step p (fetched (ok answer))) (deleted i (ok tt)) in
      (q.polls ≡ qs) × (q.total_count + 1 ≡ n)
unfolding step polls_arrived delete_answered
refresh_overtakes_delete p i qs n under_way gone remain =
    rw under_way (unlisted_kept i qs gone, omega (arith, remain))
