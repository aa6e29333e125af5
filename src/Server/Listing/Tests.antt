-- ===== src/Server/Listing/Tests.antt =====
-- The theorem on the pages, for three polls in pages of two.
use pulsepoll_hcl_guvi.Prelude.{
  ℕ, if◌then◌else◌, ◌==◌, ◌≡◌, refl, String, true, none, some, List, [], ◌∷◌, length, take, arith,
}
use pulsepoll_hcl_guvi.Results.{Poll}
use pulsepoll_hcl_guvi.Server.Listing.{pos, drop, PollLists, respond, get_creator_polls}
use pulsepoll_hcl_guvi.Server.Listing.Pages.{first_pages, pages_list_owned}

abbrev age : String → ℕ
age id = if id == "c" then 3 else if id == "b" then 2 else 1

instance unfoldable polls : PollLists (List Poll)
polls = record {
  owned = λ p creator. p;
  created_at = λ p q. age q.id;
  find_by_creator_id = λ p creator limit offset. (take limit (drop offset p), length p);
  find_owned = λ p creator limit offset sorted. refl;
}

abbrev poll : String → Poll
poll id = record {
  id = id;
  question = "Where to eat?";
  options = [];
  status = "active";
  created_at = none;
  expires_at = none;
}

abbrev three : List Poll
three = poll "c" ∷ poll "b" ∷ poll "a" ∷ []

second_page : first_pages three "ann" 2 2 ≡ three
unfolding first_pages get_creator_polls polls
second_page = refl

pages_list_owned_example :
    (first_pages three "ann" 2 1 ≡ take 2 three)
    × (get_creator_polls true three "ann" (pos 2) (pos 2) ≡ some (respond 2 2 (poll "a" ∷ [], 3)))
unfolding polls
pages_list_owned_example =
    pages_list_owned three "ann" 2 1
      ((omega arith, (omega arith, tt)), ((omega arith, tt), (tt, tt))) refl (omega arith)
      (omega arith) (omega arith)
