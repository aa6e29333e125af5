-- ===== src/Server/Listing/Pages.antt =====
-- The pages of a creator's polls, one after the other, and the page that the dashboard asks for.
use pulsepoll_hcl_guvi.Prelude.{
  ℕ, zero, suc, ◌+◌, ◌-◌, ◌*◌, ◌≤◌, ◌<◌, ◌≡◌, refl, sym, ap, ap₂, ◌∙◌, String, true, Option, none,
  some, List, [], ◌∷◌, ◌++◌, length, take, arith,
}
use pulsepoll_hcl_guvi.Text.{truthy}
use pulsepoll_hcl_guvi.Results.{Poll}
use pulsepoll_hcl_guvi.Server.Listing.{
  ℤ, pos, drop, IsNewestFirst, PollLists, ListPollsResponse, respond, max_page, clamp_page,
  clamp_limit, get_creator_polls, get_my_polls,
}

zero_add : (n : ℕ) → 0 + n ≡ n
zero_add n = omega arith

zero_mul : (n : ℕ) → 0 * n ≡ 0
zero_mul n = omega arith

suc_mul : (m n : ℕ) → suc m * n ≡ m * n + n
suc_mul m n = omega arith

suc_add : (m n : ℕ) → suc m + n ≡ suc (m + n)
suc_add m n = omega arith

take_nil : {A : Type 0} (n : ℕ) → take {A = A} n [] ≡ []
take_nil zero = refl
take_nil (suc n) = refl

take-add : {A : Type 0} (m n : ℕ) (xs : List A) → take (m + n) xs ≡ take m xs ++ take n (drop m xs)
take-add zero n xs = ap (λ k. take k xs) (zero_add n)
take-add (suc m) n [] = ap (λ k. take k []) (suc_add m n) ∙ sym (take_nil n)
take-add (suc m) n (x ∷ xs) =
    ap (λ k. take k (x ∷ xs)) (suc_add m n) ∙ ap (λ l. x ∷ l) (take-add m n xs)

clamp_page_of : (n : ℕ) → suc n ≤ max_page → clamp_page (pos (suc n)) ≡ suc n
unfolding clamp_page
clamp_page_of n h = ground arith

clamp_limit_of : (limit : ℕ) → 1 ≤ limit → limit ≤ 100 → clamp_limit (pos limit) ≡ limit
unfolding clamp_limit
clamp_limit_of limit l u = ground arith

less_one : (n : ℕ) → suc n - 1 ≡ n
less_one n = omega arith

abbrev polls_of : Option ListPollsResponse → List Poll
polls_of none = []
polls_of (some r) = r.polls

module _ {P : Type 0} ⦃repo : PollLists P⦄ where
  -- the polls of the first `n` pages of `limit` polls
  unfoldable pub first_pages : P → String → (limit n : ℕ) → List Poll
  first_pages p creator limit zero = []
  first_pages p creator limit (suc n) =
      first_pages p creator limit n
      ++ polls_of (get_creator_polls true p creator (pos (suc n)) (pos limit))

  page-owned :
      (p : P) (creator : String) (limit n : ℕ)
      → IsNewestFirst (repo.created_at p) (repo.owned p creator)
      → truthy creator ≡ true
      → 1 ≤ limit
      → limit ≤ 100
      → suc n ≤ max_page
      → polls_of (get_creator_polls true p creator (pos (suc n)) (pos limit))
        ≡ take limit (drop (n * limit) (repo.owned p creator))
  unfolding get_creator_polls
  page-owned p creator limit n sorted full l u m = rw full (
      rw (clamp_page_of n m) (
        rw (clamp_limit_of limit l u)
          (rw (less_one n) (rw (repo.find_owned p creator limit (n * limit) sorted) refl))))

  first_pages-owned :
      (p : P) (creator : String) (limit n : ℕ)
      → IsNewestFirst (repo.created_at p) (repo.owned p creator)
      → truthy creator ≡ true
      → 1 ≤ limit
      → limit ≤ 100
      → n ≤ max_page
      → first_pages p creator limit n ≡ take (n * limit) (repo.owned p creator)
  unfolding first_pages
  first_pages-owned p creator limit zero sorted full l u m =
      ap (λ k. take k (repo.owned p creator)) (sym (zero_mul limit))
  first_pages-owned p creator limit (suc n) sorted full l u m =
      ap₂ ◌++◌ (first_pages-owned p creator limit n sorted full l u (omega (arith, m)))
        (page-owned p creator limit n sorted full l u m)
      ∙ sym (take-add (n * limit) limit (repo.owned p creator))
      ∙ ap (λ k. take k (repo.owned p creator)) (sym (suc_mul n limit))

  -- For a creator whose polls were created at different times, a limit that the server takes, from 1 to
  -- 100, and up to 1000 pages, with the reads at work and no change between them: the first `n` pages of
  -- the list, one after the other, are the creator's `n * limit` newest polls, newest first; and every
  -- page names the number of all of them as the total.
  pub pages_list_owned :
      (p : P) (creator : String) (limit n : ℕ)
      → IsNewestFirst (repo.created_at p) (repo.owned p creator)
      → truthy creator ≡ true
      → 1 ≤ limit
      → limit ≤ 100
      → n < max_page
      → (first_pages p creator limit n ≡ take (n * limit) (repo.owned p creator))
        × (get_creator_polls true p creator (pos (suc n)) (pos limit)
            ≡ some (
                respond (suc n) limit (
                  take limit (drop (n * limit) (repo.owned p creator)),
                  length (repo.owned p creator),
                )))
  unfolding get_creator_polls
  pages_list_owned p creator limit n sorted full l u m = (
    first_pages-owned p creator limit n sorted full l u (omega (arith, m)),
    rw full (
        rw (clamp_page_of n (omega (arith, m))) (
          rw (clamp_limit_of limit l u)
            (rw (less_one n) (rw (repo.find_owned p creator limit (n * limit) sorted) refl)))),
  )

  -- the query of the dashboard asks for the first page, of 50 polls
  dashboard_query :
      (parse_int : String → Option ℤ) (p : P) (creator : String)
      → parse_int "1" ≡ some (pos 1)
      → parse_int "50" ≡ some (pos 50)
      → get_my_polls parse_int true p creator "1" "50"
        ≡ get_creator_polls true p creator (pos 1) (pos 50)
  unfolding get_my_polls
  dashboard_query parse_int p creator one fifty = rw one (rw fifty refl)
