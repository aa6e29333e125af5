-- ===== src/HomePage/View.antt =====
-- What frontend/src/pages/HomePage.jsx renders of the session and of the sample poll. Class names, icons,
-- pictures and the fixed text of the other sections are left out.
use pulsepoll_hcl_guvi.Prelude.{
  ℕ, ◌≡◌, refl, String, Bool, true, false, Option, none, some, if◌then◌else◌,
}
use pulsepoll_hcl_guvi.Auth.{Session, is_authenticated}
use pulsepoll_hcl_guvi.HomePage.{
  Key, Demo, total, get_percent, is_selected, handle_vote, click, step,
}

-- A button of the sample poll; `width` is that of its bar, in percent.
pub record Choice : Type 0 where
  pub number : String
  pub text : String
  pub your_vote : Bool
  pub flash : Bool
  pub votes : ℕ
  pub percent : ℕ
  pub width : ℕ
  pub disabled : Bool

pub record Shown : Type 0 where
  pub hero_link : String
  pub hint : String
  pub hybrid : Choice
  pub remote : Choice
  pub office : Choice
  pub participants : ℕ
  pub last_link : String

abbrev is_key : Key → Key → Bool
is_key Key.hybrid Key.hybrid = true
is_key Key.remote Key.remote = true
is_key Key.office Key.office = true
is_key _ _ = false

abbrev is_at : Option Key → Key → Bool
is_at none k = false
is_at (some l) k = is_key l k

unfoldable pub choice : Demo → (number text : String) → Key → ℕ → Choice
unfolding get_percent
choice d number text k count = record {
  number = number;
  text = text;
  your_vote = is_at d.selected k;
  flash = is_at d.last_voted k;
  votes = count;
  percent = get_percent d.votes count;
  width = get_percent d.votes count;
  disabled = is_selected d.selected;
}

-- where "Create a Poll" leads
unfoldable pub hero_link : Session → String
hero_link s = if is_authenticated s then "/polls/create" else "/register"

unfoldable pub render : Session → Demo → Shown
unfolding choice hero_link
render s d = record {
  hero_link = hero_link s;
  hint =
      if is_selected d.selected then "✓ Your sample vote was cast" else "Select an option to test";
  hybrid = choice d "01" "Hybrid (2–3 flexible days in office)" Key.hybrid d.votes.hybrid;
  remote = choice d "02" "Fully Remote (Work from anywhere)" Key.remote d.votes.remote;
  office = choice d "03" "In-Person First (Collaborative studio)" Key.office d.votes.office;
  participants = total d.votes;
  last_link = "/polls/create";
}

-- The three buttons are disabled exactly where a click would change nothing, which is once one was
-- clicked.
disabled_choice :
    (s : Session) (d : Demo) (k : Key)
    → (is_selected d.selected ≡ true)
    → ((render s d).hybrid.disabled ≡ true)
      × ((render s d).remote.disabled ≡ true)
      × ((render s d).office.disabled ≡ true)
      × (step d (click k) ≡ d)
unfolding render choice step handle_vote
disabled_choice s d k h = rw h (refl, refl, refl, refl)
