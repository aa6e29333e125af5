-- ===== src/Results.antt =====
-- The live results that the public page and the management page keep, and
-- frontend/src/components/PollResults.jsx, which shows them. A percentage is kept in hundredths, since
-- the server rounds to these and the pages to tenths; the quotient is exact here, where JavaScript rounds it to a
-- double first. Counts are natural numbers, and `none` is a member that is `undefined`.
mod Percent
mod Updates
mod Leading
mod Tests
use pulsepoll_hcl_guvi.Prelude.{
  ℕ, ◌+◌, ◌*◌, ◌/◌, min, max, String, Bool, true, false, not, ◌&&◌, ◌||◌, Option, none, some, List,
  [], ◌∷◌, map, ltb, nat_eq, if◌then◌else◌, ◌==◌,
}
use pulsepoll_hcl_guvi.Text.{truthy}

-- An entry of `results.options`: the server's snapshot has `option_id`, a poll's option has `id`.
pub record Entry : Type 0 where
  pub option_id : Option String
  pub id : Option String
  pub text : String
  pub count : Option ℕ
  pub votes : Option ℕ
  pub percentage : Option ℕ

pub record Results : Type 0 where
  pub options : List Entry
  pub total : ℕ

abbrev pub no_results : Results
no_results = record { options = []; total = 0 }

-- `x ?? d`
abbrev pub or_nullish : Option ℕ → ℕ → ℕ
or_nullish none d = d
or_nullish (some n) d = n

-- `opt.count ?? opt.votes ?? 0`
abbrev pub votes_of : Entry → ℕ
votes_of e = or_nullish e.count (or_nullish e.votes 0)

-- `a === b` at texts that may be missing
abbrev pub same : Option String → Option String → Bool
same none none = true
same (some a) (some b) = a == b
same _ _ = false

-- `Math.round(1000 * count / total)`, halves upwards
abbrev pub round_tenths : ℕ → ℕ → ℕ
round_tenths count total = (2 * (1000 * count) + total) / (2 * total)

-- `total > 0 ? Math.round((count / total) * 1000) / 10 : 0`
unfoldable pub percent : ℕ → ℕ → ℕ
percent count total = if ltb 0 total then 10 * round_tenths count total else 0

-- What a message of the socket holds, in the members that the pages read.
pub record Payload : Type 0 where
  pub poll_id : Option String
  pub options : Option (List Entry)
  pub option_id : Option String
  pub count : ℕ
  pub total_votes : Option ℕ

-- `id && id !== pollId`
abbrev differs : Option String → String → Bool
differs none poll_id = false
differs (some q) poll_id = truthy q && not (q == poll_id)

-- `payload.poll_id && payload.poll_id !== pollId`
unfoldable pub is_foreign : String → Payload → Bool
is_foreign poll_id p = differs p.poll_id poll_id

abbrev replace_all : Option (List Entry) → Option ℕ → Results → Results
replace_all none total r = r
replace_all (some options) total r = record { options = options; total = or_nullish total 0 }

-- `handleSnapshot`
unfoldable pub apply_snapshot : String → Payload → Results → Results
apply_snapshot poll_id p r =
    if is_foreign poll_id p then r else replace_all p.options p.total_votes r

-- `isTarget`
abbrev pub is_target : Payload → Entry → Bool
is_target p e = same e.option_id p.option_id || same e.id p.option_id

-- one round of the `map` in `handleVoteUpdate`
unfoldable pub update_entry : Payload → ℕ → Entry → Entry
update_entry p total e =
    let count = if is_target p e then p.count else votes_of e in
    record e { count = some count; votes = some count; percentage = some (percent count total) }

-- `handleVoteUpdate`
unfoldable pub apply_vote : String → Payload → Results → Results
apply_vote poll_id p r =
    let total = or_nullish p.total_votes (r.total + 1) in
    if is_foreign poll_id p
    then r
    else record { options = map (update_entry p total) r.options; total = total }

-- The poll as `getPublicPoll` returns it. `expires_at` is the instant of the deadline.
pub record PollOption : Type 0 where
  pub id : String
  pub text : String

pub record Poll : Type 0 where
  pub id : String
  pub question : String
  pub options : List PollOption
  pub status : String
  pub created_at : Option ℕ
  pub expires_at : Option ℕ

abbrev zero_entry : PollOption → Entry
zero_entry o = record {
  option_id = some o.id;
  id = none;
  text = o.text;
  count = some 0;
  votes = some 0;
  percentage = some 0;
}

-- the results shown where the snapshot cannot be fetched
unfoldable pub empty_results : Poll → Results
empty_results poll = record { options = map zero_entry poll.options; total = 0 }

-- PollResults.jsx: the `reduce`
unfoldable pub max_from : ℕ → List Entry → ℕ
max_from best [] = best
max_from best (e ∷ es) = max_from (if ltb best (votes_of e) then votes_of e else best) es

unfoldable pub max_votes : List Entry → ℕ
unfolding max_from
max_votes es = max_from 0 es

-- `userVotedOptionId === optId`, where no vote is `null` and differs from a missing id
abbrev pub is_user_choice : Option String → Option String → Bool
is_user_choice (some v) (some k) = v == k
is_user_choice _ _ = false

-- The row of one option.
pub record Row : Type 0 where
  pub key : Option String
  pub text : String
  pub count : ℕ
  pub count_label : String
  pub percentage : ℕ
  pub width : ℕ
  pub is_user_vote : Bool
  pub is_leading : Bool
  pub shows_leading : Bool

abbrev or_text : Option String → Option String → Option String
or_text none d = d
or_text (some k) d = if truthy k then some k else d

-- `opt.option_id || opt.id`
abbrev pub row_key : Entry → Option String
row_key e = or_text e.option_id e.id

unfoldable pub row : Option String → ℕ → ℕ → Entry → Row
row user_voted total best e =
    let count = votes_of e in
    let percentage = or_nullish e.percentage (percent count total) in
    let is_leading = ltb 0 total && nat_eq count best in
    record {
      key = row_key e;
      text = e.text;
      count = count;
      count_label = if nat_eq count 1 then "vote" else "votes";
      percentage = percentage;
      width = min 10000 (max 0 percentage);
      is_user_vote = is_user_choice user_voted (row_key e);
      is_leading = is_leading;
      shows_leading = is_leading && ltb 1 total;
    }

pub record Panel : Type 0 where
  pub shows_closed : Bool
  pub total : ℕ
  pub total_label : String
  pub rows : List Row

unfoldable pub panel : Results → Option String → Bool → Panel
unfolding row max_votes
panel r user_voted is_closed = record {
  shows_closed = is_closed;
  total = r.total;
  total_label = if nat_eq r.total 1 then "total vote" else "total votes";
  rows = map (row user_voted r.total (max_votes r.options)) r.options;
}
