-- ===== src/Server/Listing.antt =====
-- backend/internal/polls/handler.go `GetMyPolls` and service.go `GetCreatorPolls`: the list of a
-- creator's polls by pages. `parse_int` is `strconv.ParseInt`. The collection is an interface, with
-- the skip and the limit of a MongoDB query.
mod Pages
mod Tests
use pulsepoll_hcl_guvi.Prelude.{
  ℕ, zero, suc, ◌+◌, ◌-◌, ◌*◌, ◌<◌, ◌≡◌, All, String, Bool, true, false, not, ◌&&◌, ◌||◌, Option,
  none, some, List, [], ◌∷◌, length, take, ltb, if◌then◌else◌,
}
use pulsepoll_hcl_guvi.Text.{truthy}
use pulsepoll_hcl_guvi.Results.{Poll}

-- An `int64`, which is negative as `negsuc n`, minus one minus `n`.
pub data ℤ : Type 0 where
  pos negsuc : ℕ → ℤ

abbrev pub drop : {A : Type 0} → ℕ → List A → List A
drop zero xs = xs
drop (suc n) [] = []
drop (suc n) (x ∷ xs) = drop n xs

-- each poll is older than those before it, so that no two have the same time
abbrev pub IsNewestFirst : (Poll → ℕ) → List Poll → Type 0
IsNewestFirst created_at [] = Unit
IsNewestFirst created_at (p ∷ ps) =
    All (λ q. created_at q < created_at p) ps × IsNewestFirst created_at ps

-- `FindByCreatorID` of the collection `P`, whose polls of a creator are `owned`. The query sorts by the
-- time of creation, so its skip and its limit are those of one list if the times differ.
pub record PollLists (P : Type 0) : Type 0 where
  pub owned : P → (creator : String) → List Poll
  pub created_at : P → Poll → ℕ
  pub find_by_creator_id : P → (creator : String) → (limit offset : ℕ) → List Poll × ℕ
  pub find_owned :
      (p : P) (creator : String) (limit offset : ℕ)
      → IsNewestFirst (created_at p) (owned p creator)
      → find_by_creator_id p creator limit offset
        ≡ (take limit (drop offset (owned p creator)), length (owned p creator))

-- `ListPollsResponse`
pub record ListPollsResponse : Type 0 where
  pub polls : List Poll
  pub total_count : ℕ
  pub page : ℕ
  pub limit : ℕ

abbrev pub max_page : ℕ
max_page = 1000

-- the page and the limit of the service, for any `int64`
unfoldable pub clamp_page : ℤ → ℕ
clamp_page (negsuc n) = 1
clamp_page (pos n) = if ltb n 1 then 1 else if ltb max_page n then max_page else n

unfoldable pub clamp_limit : ℤ → ℕ
clamp_limit (negsuc n) = 20
clamp_limit (pos n) = if ltb n 1 || ltb 100 n then 20 else n

-- `GetMyPolls` reads the page and the limit of the query.
abbrev page_of : Option ℤ → ℕ
page_of none = 1
page_of (some (negsuc n)) = 1
page_of (some (pos n)) = if ltb 0 n then if ltb max_page n then max_page else n else 1

abbrev limit_of : Option ℤ → ℕ
limit_of none = 20
limit_of (some (negsuc n)) = 20
limit_of (some (pos n)) = if ltb 0 n && not (ltb 100 n) then n else 20

abbrev pub respond : (page limit : ℕ) → List Poll × ℕ → ListPollsResponse
respond page limit (polls, total) = record {
  polls = polls;
  total_count = total;
  page = page;
  limit = limit;
}

module _ {P : Type 0} ⦃repo : PollLists P⦄ where
  -- `GetCreatorPolls`: `none` is an error, of an empty creator or of a read that fails.
  unfoldable pub get_creator_polls :
      (reads : Bool) → P → String → (page limit : ℤ) → Option ListPollsResponse
  unfolding clamp_page clamp_limit
  get_creator_polls reads p creator page limit =
      let number = clamp_page page in
      let size = clamp_limit limit in
      if not (truthy creator) || not reads
      then none
      else some (respond number size (repo.find_by_creator_id p creator size ((number - 1) * size)))

  -- `GetMyPolls` for the texts of the query: `none` is an answer with an error.
  unfoldable pub get_my_polls :
      (parse_int : String → Option ℤ)
      → (reads : Bool) → P
      → (creator page limit : String) → Option ListPollsResponse
  unfolding get_creator_polls
  get_my_polls parse_int reads p creator page limit =
      get_creator_polls reads p creator (pos (if truthy page then page_of (parse_int page) else 1))
        (pos (if truthy limit then limit_of (parse_int limit) else 20))
