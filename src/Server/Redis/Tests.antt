-- ===== src/Server/Redis/Tests.antt =====
-- The theorems on the counters with a hash that is an association list, and a poll of two options.
use pulsepoll_hcl_guvi.Prelude.{
  ℕ, ◌+◌, ◌≡◌, refl, sym, ap, ◌∙◌, String, Bool, true, false, Option, none, some, List, [], ◌∷◌,
  arith, eq_iff, eq_refl, ◌==◌, if◌then◌else◌, Bool-cases, inl, inr,
}
use pulsepoll_hcl_guvi.Results.{Poll, Payload}
use pulsepoll_hcl_guvi.Server.{Works, all_work, Verdict, recorded, Ballot, Server, cast_vote, serve}
use pulsepoll_hcl_guvi.Server.Stores.{Vote, votes}
use pulsepoll_hcl_guvi.Server.Live.{AreEqual}
use pulsepoll_hcl_guvi.Server.Redis.{
  or_zero, or_number, HashCommands, counted, redis_votes, has_counters, increment_vote,
}
use pulsepoll_hcl_guvi.Server.Redis.Recovery.{
  HoldsOptions, lost_counters_recover, skipped_initialization_lasts,
}

abbrev Hash : Type 0
Hash = List (String × ℕ)

abbrev get : Hash → String → Option ℕ
get [] q = none
get ((o, n) ∷ h) q = if o == q then some n else get h q

abbrev is_cons : Hash → Bool
is_cons [] = false
is_cons (_ ∷ _) = true

abbrev set_absent : Hash → String → ℕ → Option ℕ → Hash
set_absent h o n none = (o, n) ∷ h
set_absent h o n (some m) = h

abbrev increase : Hash → String → Hash
increase h o = (o, or_zero (get h o) + 1) ∷ h

get-set_absent :
    (h : Hash) (o q : String) (n : ℕ) (v : Option ℕ)
    → get h o ≡ v
    → get (set_absent h o n v) q ≡ (if o == q then some (or_number (get h q) n) else get h q)
get-set_absent h o q n none e = elim (Bool-cases (o == q)) [
  | inl k ↦ rw k (ap (λ x. some (or_number x n)) (sym e ∙ ap (get h) ((eq_iff o q).0 k)))
  | inr k ↦ rw k refl
]
get-set_absent h o q n (some m) e = elim (Bool-cases (o == q)) [
  | inl k ↦ (let found = ap (get h) (sym ((eq_iff o q).0 k)) ∙ e in rw k (rw found refl))
  | inr k ↦ rw k refl
]

get-increase :
    (h : Hash) (o q : String)
    → get (increase h o) q ≡ (if o == q then some (or_zero (get h q) + 1) else get h q)
get-increase h o q = elim (Bool-cases (o == q)) [
  | inl k ↦ rw k (ap (λ p. some (or_zero (get h p) + 1)) ((eq_iff o q).0 k))
  | inr k ↦ rw k refl
]

get-absent : (h : Hash) (q : String) → is_cons h ≡ false → get h q ≡ none
get-absent [] q e = refl
get-absent (x ∷ h) q e = cc

instance unfoldable hash : HashCommands Hash
hash = record {
  exists = is_cons;
  hget = get;
  hsetnx = λ h o n. set_absent h o n (get h o);
  hincr = λ h o. (increase h o, or_zero (get h o) + 1);
  del = λ h. [];
  hget-hsetnx = λ h o q n. get-set_absent h o q n (get h o) refl;
  hget-hincr = get-increase;
  hincr_returns = λ h o. rw (eq_refl o) refl;
  hincr_exists = λ h o. refl;
  del_exists = λ h. refl;
  hget_absent = get-absent;
}

abbrev lunch : Poll
lunch = record {
  id = "p1";
  question = "Where to eat?";
  options = record { id = "a"; text = "Thai" } ∷ record { id = "b"; text = "Pizza" } ∷ [];
  status = "active";
  created_at = none;
  expires_at = none;
}

abbrev ballot : String → String → Ballot
ballot u o = record { option_id = o; voter_id = u; time = 5 }

-- one vote in MongoDB, and no hash in Redis
abbrev lost : Server (List Vote) Hash
lost = record { votes = record { voter = "ada"; option = "a" } ∷ []; counters = [] }

lost-HoldsOptions : HoldsOptions lunch lost.votes
unfolding votes
lost-HoldsOptions q e = ground (arith, e, eq_iff "a" q)

abbrev event : Verdict → Option Payload
event (recorded e) = e
event (Verdict.refused r) = none

-- Redis fails to initialize the hash.
abbrev uninitialized : Works
uninitialized = record all_work { initialize = false }

voted : Works → Server (List Vote) Hash × Verdict
voted w = cast_vote w (some lunch) lost (ballot "bob" "b")

server_functions : Unit {0}
unfolding votes hash redis_votes voted cast_vote serve AreEqual has_counters increment_vote
server_functions = tt

voted-recorded : voted all_work ≡ ((voted all_work).0, recorded (event (voted all_work).1))
unfolding server_functions
voted-recorded = refl

skipped-recorded :
    voted uninitialized ≡ ((voted uninitialized).0, recorded (event (voted uninitialized).1))
unfolding server_functions
skipped-recorded = refl

lost_counters_recover_example : AreEqual (serve lunch (voted all_work).0 (ballot "eve" "a" ∷ [])).0
unfolding voted hash
lost_counters_recover_example =
    lost_counters_recover lunch lost (voted all_work).0 (ballot "bob" "b")
      (event (voted all_work).1) (ballot "eve" "a" ∷ []) refl lost-HoldsOptions voted-recorded

skipped_initialization_lasts_example :
    let last = (serve lunch (voted uninitialized).0 (ballot "eve" "a" ∷ [])).0 in
    counted last.counters "a" + 1 ≡ 2
unfolding server_functions
skipped_initialization_lasts_example =
    skipped_initialization_lasts uninitialized lunch lost (voted uninitialized).0 (ballot "bob" "b")
      (event (voted uninitialized).1) (ballot "eve" "a" ∷ []) "a" refl refl refl skipped-recorded
