-- ===== src/DashboardPage/Listing.antt =====
-- The list, the tab badges and the metrics of the dashboard agree.
use pulsepoll_hcl_guvi.Prelude.{
  ◌+◌, ◌-◌, ◌≤◌, ◌≡◌, ◌≢◌, refl, ap, sym, String, Bool, true, false, not, List, [], ◌∷◌, keep_if,
  length, arith, if◌then◌else◌, ◌==◌, eq_iff, Memᴰ, ◌↔◌, Bool-cases, inl, inr,
}
use pulsepoll_hcl_guvi.Results.{Poll}
use pulsepoll_hcl_guvi.Auth.{ok, error, Failure}
use pulsepoll_hcl_guvi.DashboardPage.{
  Page, everything, active, closed, passes, has_status, filtered, numbers, delete_answered,
}

active_closed_le :
    (qs : List Poll)
    → length (keep_if (has_status "active") qs) + length (keep_if (has_status "closed") qs)
      ≤ length qs
active_closed_le [] = omega arith
active_closed_le (q ∷ qs) = ground (
  arith,
  eq_iff q.status "active",
  eq_iff q.status "closed",
  eq_iff "active" "closed",
  active_closed_le qs,
)

keep_all : (qs : List Poll) → keep_if (passes everything) qs ≡ qs
keep_all [] = refl
keep_all (q ∷ qs) = ap (q ∷◌) (keep_all qs)

-- Under each tab the list has as many polls as the tab's badge says, the first tab lists the polls
-- as they are, and the badges of the active
-- and of the closed polls together count no more polls than there are.
pub badges_agree :
    (p : Page)
    → (filtered (record p { filter = everything }) ≡ p.polls)
      × ((numbers p).all_badge ≡ length (filtered (record p { filter = everything })))
      × ((numbers p).active_badge ≡ length (filtered (record p { filter = active })))
      × ((numbers p).closed_badge ≡ length (filtered (record p { filter = closed })))
      × ((numbers p).active_badge + (numbers p).closed_badge ≤ (numbers p).all_badge)
unfolding filtered numbers
badges_agree p =
    (keep_all p.polls, ap length (sym (keep_all p.polls)), refl, refl, active_closed_le p.polls)

mem_of_keep_if :
    (keep : Poll → Bool) (qs : List Poll) (q : Poll)
    → Memᴰ q (keep_if keep qs)
    → Memᴰ q qs × (keep q ≡ true)
mem_of_keep_if keep [] q m = elim m [ ]
mem_of_keep_if keep (r ∷ qs) q m = go (keep r) refl (mem_of_keep_if keep qs q) m
  where
    go :
        (b : Bool)
        → keep r ≡ b
        → (Memᴰ q (keep_if keep qs) → Memᴰ q qs × (keep q ≡ true))
        → Memᴰ q (if b then r ∷ keep_if keep qs else keep_if keep qs)
        → Memᴰ q (r ∷ qs) × (keep q ≡ true)
    go true e ih (Memᴰ.head same) = (Memᴰ.head same, rw same e)
    go true e ih (Memᴰ.tail n) = let (listed, kept) = ih n in (Memᴰ.tail listed, kept)
    go false e ih n = let (listed, kept) = ih n in (Memᴰ.tail listed, kept)

mem-keep_if :
    (keep : Poll → Bool) (qs : List Poll) (q : Poll)
    → Memᴰ q qs
    → keep q ≡ true
    → Memᴰ q (keep_if keep qs)
mem-keep_if keep [] q m e = elim m [ ]
mem-keep_if keep (r ∷ qs) q (Memᴰ.head same) e =
    let kept : keep r ≡ true = rw (← same) e in rw kept (Memᴰ.head same)
mem-keep_if keep (r ∷ qs) q (Memᴰ.tail m) e = elim (Bool-cases (keep r)) [
  | inl kept ↦ rw kept (Memᴰ.tail (mem-keep_if keep qs q m e))
  | inr dropped ↦ rw dropped (mem-keep_if keep qs q m e)
]

-- After a deletion the page holds exactly the polls that it held before and that have another id,
-- and counts one poll less, or none if it counted none; a failed deletion keeps both.
pub delete_answered_lem :
    (p : Page) (i : String) (q : Poll) (e : Failure)
    → (Memᴰ q (delete_answered i (ok tt) p).polls ↔ (Memᴰ q p.polls × (q.id ≢ i)))
      × ((delete_answered i (ok tt) p).total_count ≡ p.total_count - 1)
      × ((delete_answered i (error e) p).polls ≡ p.polls)
      × ((delete_answered i (error e) p).total_count ≡ p.total_count)
unfolding delete_answered
delete_answered_lem p i q e = (
  (
    λ m.
        let (listed, kept) = mem_of_keep_if (λ r. not (r.id == i)) p.polls q m in
        (listed, λ same. ground (arith, eq_iff q.id i)),
    λ a. mem-keep_if (λ r. not (r.id == i)) p.polls q a.0 (ground (arith, eq_iff q.id i, a.1)),
  ),
  refl,
  refl,
  refl,
)
