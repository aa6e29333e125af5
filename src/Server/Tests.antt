-- ===== src/Server/Tests.antt =====
-- The theorems on the server at stores that are association lists, with a poll of two options.
use Prim.Native.String.{[], ◌∷◌}
use Prim.Native.Char.{Char, char, IsScalar}
use Prim.Native.Nat.{Ordering, compare}
use native.Mathlib.Omega.{compare-eq, compare-gt}
use pulsepoll_hcl_guvi.Prelude.{
  ℕ, ◌+◌, ◌<◌, ◌≡◌, refl, ap₂, String, Bool, true, false, ◌&&◌, ◌||◌, none, some, List, arith, code,
  leb, if◌then◌else◌,
}
use pulsepoll_hcl_guvi.Text.Ascii.{lower_code, LowersAscii}
use pulsepoll_hcl_guvi.Client.{answered, ApiError, thrown, settle}
use pulsepoll_hcl_guvi.Auth.{ok, error}
use pulsepoll_hcl_guvi.Results.{Results, Poll, apply_snapshot}
use pulsepoll_hcl_guvi.Socket.{on_vote_update}
use pulsepoll_hcl_guvi.PublicPollPage.{start, vote_arrived, results_arrived, receive}
use pulsepoll_hcl_guvi.Server.{
  all_work, duplicate_vote, Ballot, Server, snapshot, get_results, cast_vote, serve,
}
use pulsepoll_hcl_guvi.Server.Stores.{Vote, voted_in, tally, votes, counters}
use pulsepoll_hcl_guvi.Server.Tally.{receive_updates, IsShowing, IsRecorded, event_of}
use pulsepoll_hcl_guvi.Server.Rest.{late_results_undo}
use pulsepoll_hcl_guvi.Server.Live.{AreEqual}
use pulsepoll_hcl_guvi.Server.Refusals.{
  respond, failure_of, is_duplicate_vote, is_poll_closed, is_poll_expired, refusal_reaches_page,
}

IsScalar-of_lt : (n : ℕ) → n < 55296 → IsScalar n
IsScalar-of_lt n h = go (compare n 55296) refl
  where
    go : (o : Ordering) → compare n 55296 ≡ o → IsScalar n
    go Ordering.lt e = rw e tt
    go Ordering.eq e = absurd (omega (arith, compare-eq n 55296 e))
    go Ordering.gt e = absurd (omega (arith, compare-gt n 55296 e))

IsScalar-lower : (c : Char) → (leb 65 (code c) && leb (code c) 90) ≡ true → IsScalar (code c + 32)
IsScalar-lower c h = IsScalar-of_lt (code c + 32) (ground arith)

abbrev lower_by : (c : Char) (k : Bool) → (leb 65 (code c) && leb (code c) 90) ≡ k → Char
lower_by c true h = char (code c + 32) (IsScalar-lower c h)
lower_by c false h = c

abbrev lower_char : Char → Char
lower_char c = lower_by c (leb 65 (code c) && leb (code c) 90) refl

lower_char-code : (c : Char) → code (lower_char c) ≡ lower_code (code c)
lower_char-code c = go (leb 65 (code c) && leb (code c) 90) refl
  where
    go :
        (k : Bool) (h : (leb 65 (code c) && leb (code c) 90) ≡ k)
        → code (lower_by c k h) ≡ (if k then code c + 32 else code c)
    go true h = refl
    go false h = refl

lower : String → String
lower [] = []
lower (c ∷ s) = lower_char c ∷ lower s

lower-LowersAscii : LowersAscii lower
unfolding lower
lower-LowersAscii [] h = refl
lower-LowersAscii (c ∷ s) h = ap₂ List.◌∷◌ (lower_char-code c) (lower-LowersAscii s (ground arith))

abbrev lunch : Poll
lunch = record {
  id = "p1";
  question = "Where to eat?";
  options =
      List.◌∷◌ (record { id = "a"; text = "Thai" })
        (List.◌∷◌ (record { id = "b"; text = "Pizza" }) List.[]);
  status = "active";
  created_at = none;
  expires_at = some 900;
}

abbrev ballot : String → String → Ballot
ballot u o = record { option_id = o; voter_id = u; time = 5 }

abbrev before : Server (List Vote) (List (String × ℕ))
before = record {
  votes = List.◌∷◌ (record { voter = "ada"; option = "a" }) List.[];
  counters = List.◌∷◌ ("a", 1) List.[];
}

-- one vote, one that is refused, and one more
abbrev ballots : List Ballot
ballots =
    List.◌∷◌ (ballot "bob" "b") (List.◌∷◌ (ballot "bob" "a") (List.◌∷◌ (ballot "eve" "b") List.[]))

abbrev blank : Results
blank = record { options = List.[]; total = 0 }

server_functions : Unit {0}
unfolding votes counters serve cast_vote receive_updates snapshot apply_snapshot AreEqual event_of
server_functions = tt

serve_test :
    let (last, ps) = serve lunch before ballots in
    (voted_in last.votes "eve" ≡ true) × (tally last.counters "b" ≡ 2)
unfolding server_functions
serve_test = (refl, refl)

bob-IsRecorded : IsRecorded lunch before (ballot "bob" "b")
unfolding server_functions
bob-IsRecorded = record {
  votes = List.◌∷◌ (record { voter = "bob"; option = "b" }) before.votes;
  is_stored = refl;
  is_option = refl;
  answer = refl;
}

late_results_undo_example :
    let updated = receive (on_vote_update (event_of lunch before.counters "b")) (start "p1" none) in
    let q = results_arrived lunch (ok (get_results lunch before.counters)) updated in
    ¬ IsShowing lunch
      (cast_vote all_work (some lunch) before (ballot "bob" "b")).0.counters
      q.results
late_results_undo_example =
    late_results_undo lunch before (ballot "bob" "b") (start "p1" none) bob-IsRecorded

refusal_reaches_page_example :
    (e : ApiError) × (settle (answered (respond duplicate_vote)) ≡ thrown e)
    × let q = vote_arrived lower "a" (error (failure_of e)) (start "p1" none) in
      (q.is_voting ≡ false)
      × (q.has_voted ≡ (is_duplicate_vote duplicate_vote || (start "p1" none).has_voted))
      × (q.stored
          ≡ (if is_duplicate_vote duplicate_vote then some "a" else (start "p1" none).stored))
      × (q.is_closed ≡ ((start "p1" none).is_closed || is_poll_closed duplicate_vote))
      × (q.is_expired ≡ ((start "p1" none).is_expired || is_poll_expired duplicate_vote))
refusal_reaches_page_example =
    refusal_reaches_page lower lower-LowersAscii duplicate_vote "a" (start "p1" none)
