-- ===== src/Server/Hub/Page.antt =====
-- From a vote by way of the hub to the page of a client that is connected to it.
use pulsepoll_hcl_guvi.Prelude.{
  ℕ, ◌≡◌, refl, sym, ap, ◌∙◌, subst, true, false, String, List, [], ◌∷◌, ◌++◌, map,
}
use pulsepoll_hcl_guvi.Results.{Results, Poll, Payload, apply_snapshot, apply_vote}
use pulsepoll_hcl_guvi.Server.{VoteRepository, VoteCounterStore, Server, Ballot, snapshot, serve}
use pulsepoll_hcl_guvi.Server.Tally.{receive_updates, IsShowing}
use pulsepoll_hcl_guvi.Server.Live.{page_follows}
use pulsepoll_hcl_guvi.Server.Hub.{received, PollHub, Event, next, mem, new_poll_hub, run}
use pulsepoll_hcl_guvi.Server.Hub.Members.{is_early}
use pulsepoll_hcl_guvi.Server.Hub.Safety.Steps.{reached-IsSafe}
use pulsepoll_hcl_guvi.Server.Hub.Stream.Queue.{published, delivered, queue-KeepsOrder}
use pulsepoll_hcl_guvi.Server.Hub.Stream.Heard.{is_ungreeted, heard}
use mathlib.Core.List.{append-nil}

-- the messages of `ServeWS` and of the poll's channel in Redis
pub data Message : Type 0 where
  results_snapshot vote_update : Payload → Message

-- the callbacks of a poll page, on its results
abbrev pub receive_message : String → Results → Message → Results
receive_message id r (results_snapshot p) = apply_snapshot id p r
receive_message id r (vote_update p) = apply_vote id p r

abbrev pub receive_messages : String → Results → List Message → Results
receive_messages id r [] = r
receive_messages id r (m ∷ ms) = receive_messages id (receive_message id r m) ms

receive-updates :
    (id : String) (r : Results) (ps : List Payload)
    → receive_messages id r (map vote_update ps) ≡ receive_updates id r ps
unfolding receive_updates
receive-updates id r [] = refl
receive-updates id r (p ∷ ps) = receive-updates id (apply_vote id p r) ps

-- what leaves the queue between two moments at which it is empty
all_delivered :
    {M : Type 0} (es : List (Event M)) (h g : PollHub M)
    → run es h ≡ next g
    → h.broadcast ≡ []
    → g.broadcast ≡ []
    → delivered es h ≡ published es
all_delivered es h g r before after =
    sym (append-nil (delivered es h))
    ∙ ap (λ l. delivered es h ++ l) (sym after)
    ∙ queue-KeepsOrder es h g r
    ∙ ap (λ l. l ++ published es) before

module _ {V C : Type 0} ⦃repo : VoteRepository V⦄ ⦃redis : VoteCounterStore C⦄ where
  -- Take a moment at which the hub of a poll has nothing in its queue and a registered client has
  -- received the snapshot of the server's counters, which exist, and nothing else. If from then on
  -- what the hub gets from Redis are the updates of some ballots, whose calls of `CastVote` come
  -- one after the other and do not overlap, with every operation at work, then at any later moment
  -- at which the queue is empty and the client is still one of the hub's, with no other message of
  -- `ServeWS` to it, a page that handles what the client has received shows the counts and the
  -- total that the server has after those ballots, whatever it showed before.
  pub connected_page_follows :
      (poll : Poll) (s : Server V C) (bs : List Ballot) (r : Results) (c : ℕ)
      (before after : List (Event Message)) (h g : PollHub Message)
      → redis.has_counters s.counters ≡ true
      → run before new_poll_hub ≡ next h
      → h.broadcast ≡ []
      → is_early (h.heap c).phase ≡ false
      → received (h.heap c) ≡ results_snapshot (snapshot poll s.counters) ∷ []
      → run after h ≡ next g
      → published after ≡ map vote_update (serve poll s bs).1
      → is_ungreeted c after ≡ true
      → g.broadcast ≡ []
      → mem c g.clients ≡ true
      → IsShowing poll
          (serve poll s bs).0.counters
          (receive_messages poll.id r (received (g.heap c)))
  connected_page_follows poll s bs r c before after h g exists reached idle late greeted r2 updates
        quiet idle2 m =
      let messages =
        heard c after h g (reached-IsSafe before h reached) late r2 m quiet
        ∙ ap (λ l. l ++ delivered after h) greeted
        ∙ ap (λ l. results_snapshot (snapshot poll s.counters) ∷ l)
            (all_delivered after h g r2 idle idle2 ∙ updates) in
      let shown = apply_snapshot poll.id (snapshot poll s.counters) r in
      subst (IsShowing poll (serve poll s bs).0.counters)
        (sym (
          ap (receive_messages poll.id r) messages
          ∙ receive-updates poll.id shown (serve poll s bs).1))
        (page_follows poll s bs r exists)
