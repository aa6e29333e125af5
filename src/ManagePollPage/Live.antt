-- ===== src/ManagePollPage/Live.antt =====
-- The creator's page and the voting page at the same messages.
use pulsepoll_hcl_guvi.Prelude.{◌≡◌, ap₂, List, [], ◌∷◌, arith}
use pulsepoll_hcl_guvi.Results.{apply_snapshot, apply_vote}
use pulsepoll_hcl_guvi.Socket.{Delivery, on_snapshot, on_vote_update, on_poll_closed}
use pulsepoll_hcl_guvi.PublicPollPage
use pulsepoll_hcl_guvi.ManagePollPage.{Page, receive}

pub receive_each : Page → List Delivery → Page
receive_each p [] = p
receive_each p (d ∷ ds) = receive_each (receive d p) ds

pub receive_public : PublicPollPage.Page → List Delivery → PublicPollPage.Page
receive_public p [] = p
receive_public p (d ∷ ds) = receive_public (PublicPollPage.receive d p) ds

-- The two pages show the same poll and the same results.
abbrev pub AreInStep : Page → PublicPollPage.Page → Type 0
AreInStep p q = (p.poll_id ≡ q.poll_id) × (p.results ≡ q.results)

receive_in_step :
    (d : Delivery) (p : Page) (q : PublicPollPage.Page)
    → AreInStep p q
    → AreInStep (receive d p) (PublicPollPage.receive d q)
unfolding receive PublicPollPage.receive
receive_in_step (on_snapshot m) p q (i, r) = (i, ap₂ (λ k s. apply_snapshot k m s) i r)
receive_in_step (on_vote_update m) p q (i, r) = (i, ap₂ (λ k s. apply_vote k m s) i r)
receive_in_step (on_poll_closed m) p q (i, r) = ground arith

-- At the same messages the creator's page and a voting page that start with the same results for
-- the same poll go on with the same results.
pub pages_in_step :
    (p : Page) (q : PublicPollPage.Page) (ds : List Delivery)
    → AreInStep p q
    → AreInStep (receive_each p ds) (receive_public q ds)
unfolding receive_each receive_public
pages_in_step p q [] h = h
pages_in_step p q (d ∷ ds) h =
    pages_in_step (receive d p) (PublicPollPage.receive d q) ds (receive_in_step d p q h)
