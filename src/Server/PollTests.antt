-- ===== src/Server/PollTests.antt =====
-- The theorems on the changes of polls at a repository that is a function.
use pulsepoll_hcl_guvi.Prelude.{
  ◌≡◌, ◌≢◌, arith, ap, eq_refl, refl, String, true, false, Option, none, some, List, [], ◌∷◌,
  eq_iff, ℕ, ◌==◌, if◌then◌else◌,
}
use pulsepoll_hcl_guvi.Results.{Poll, Payload}
use pulsepoll_hcl_guvi.Socket.{on_poll_closed}
use pulsepoll_hcl_guvi.PublicPollPage.{start, receive}
use pulsepoll_hcl_guvi.Server.{all_work, Refusal, refused, Ballot, Server, cast_vote}
use pulsepoll_hcl_guvi.Server.Stores.{Vote, votes, counters}
use pulsepoll_hcl_guvi.Server.Polls.{
  Stored, change, with_status, with_question, with_content, PollRepository, close_poll, update_poll,
  returned,
}
use pulsepoll_hcl_guvi.Server.Owners.{Command, updating, setting, removing, perform_all, only_owner}
use pulsepoll_hcl_guvi.Text
use pulsepoll_hcl_guvi.Text.{trim, trim_start, trim_end, is_space, is_blank}
use pulsepoll_hcl_guvi.Api
use pulsepoll_hcl_guvi.Auth.{ok}
use pulsepoll_hcl_guvi.ManagePollPage
use pulsepoll_hcl_guvi.ManagePollPage.{handle_save, save_answered, question_of}
use pulsepoll_hcl_guvi.Server.Saving.{save_round_trip}
use pulsepoll_hcl_guvi.Server.Closing.{poll_of, close_ends_voting}

abbrev Finder : Type 0
Finder = String → Option Stored

abbrev at : Finder → String → (Option Stored → Option Stored) → Finder
at p i f j = if i == j then f (p j) else p j

abbrev gone : Option Stored → Option Stored
gone _ = none

instance finder : PollRepository Finder
finder = record {
  is_same_id = λ i j. i == j;
  find_by_id = λ p i. p i;
  same_refl = eq_refl;
  same_finds = λ p i j h. ap p ((eq_iff i j).0 h);
  update = λ p i t os. at p i (change (with_content t os));
  update_status = λ p i st. at p i (change (with_status st));
  soft_delete = λ p i. at p i gone;
  update_finds = λ p i t os j. refl;
  update_status_finds = λ p i st j. refl;
  soft_delete_finds = λ p i j. refl;
}

abbrev lunch : Stored
lunch = record {
  poll = record {
    id = "p1";
    question = "Where to eat?";
    options = record { id = "a"; text = "Thai" } ∷ record { id = "b"; text = "Pizza" } ∷ [];
    status = "active";
    created_at = none;
    expires_at = none;
  };
  creator_id = "ann";
}

abbrev polls : Finder
polls i = if i == "p1" then some lunch else none

abbrev same_text : String → String
same_text s = s

-- what eve tries
abbrev attempts : List Command
attempts =
    updating true "eve" "p1" (record {
      question = some "Who cares?";
      options = record { id = "a"; text = "Soup" } ∷ record { id = "b"; text = "Salad" } ∷ [];
    })
    ∷ setting true "eve" "p1" "closed"
    ∷ removing true "eve" "p1"
    ∷ []

eve_other : ◌≢◌ {A = String} "eve" "ann"
eve_other e = ground (arith, eq_iff "eve" "ann")

only_owner_example :
    finder.find_by_id (perform_all same_text same_text polls attempts) "p1" ≡ some lunch
unfolding finder
only_owner_example =
    only_owner same_text same_text polls "p1" lunch attempts refl
      (eve_other, (eve_other, (eve_other, tt)))

abbrev server : Server (List Vote) (List (String × ℕ))
server = record { votes = []; counters = ("a", 1) ∷ [] }

abbrev vote : Ballot
vote = record { option_id = "a"; voter_id = "bob"; time = 5 }

close_ends_voting_example :
    let out = close_poll true "ann" "p1" polls in
    (e : Payload) × (out.event ≡ some e)
    × ((receive (on_poll_closed e) (start "p1" none)).is_closed ≡ true)
    × (cast_vote all_work (poll_of (finder.find_by_id out.store "p1")) server vote
        ≡ (server, refused Refusal.poll_closed))
unfolding finder start
close_ends_voting_example =
    close_ends_voting polls "p1" lunch (start "p1" none) all_work server vote refl refl refl refl
      refl refl refl refl

abbrev console : ManagePollPage.Page
console = record {
  poll_id = "p1";
  poll = some lunch.poll;
  results = record { options = []; total = 0 };
  loading = false;
  page_error = "";
  action_success = "";
  is_processing = false;
  copied = false;
  is_editing = true;
  edited_question = " Where now? ";
  went_to = none;
  acting = [];
  message_timers = 0;
  copied_timers = 0;
}

save_functions : Unit {0}
unfolding finder handle_save trim trim_start trim_end is_space is_blank Text.length
save_functions = tt

save_round_trip_example :
    let question = trim console.edited_question in
    let out = update_poll trim true "ann" "p1" question polls in
    (poll : Poll) × (out.answer ≡ returned poll)
    × (finder.find_by_id out.store "p1"
        ≡ some (record lunch { poll = with_question question lunch.poll }))
    × (question_of (save_answered question (ok poll.question) console).poll ≡ question)
unfolding save_functions
save_round_trip_example =
    save_round_trip trim (λ s h. refl) polls "p1" lunch console (Api.update_poll "p1" "Where now?")
      lunch.poll refl refl refl refl refl refl refl
