-- ===== src/PollCard/Tests.antt =====
-- The theorem on the card at one poll with four options.
use pulsepoll_hcl_guvi.Prelude.{◌≡◌, refl, false, none, some, [], ◌∷◌}
use pulsepoll_hcl_guvi.Results.{Poll}
use pulsepoll_hcl_guvi.PollCard.{badge, card, alert, alert_style}

abbrev colours : Poll
colours = record {
  id = "p1";
  question = "Which colour?";
  options =
      record { id = "a"; text = "Red" }
      ∷ record { id = "b"; text = "Green" }
      ∷ record { id = "c"; text = "Blue" }
      ∷ record { id = "d"; text = "Grey" }
      ∷ [];
  status = "active";
  created_at = some 10;
  expires_at = some 20;
}

card_test :
    ((card "" colours 15 false false).more ≡ some 1)
    × ((card "" colours 20 false false).badge ≡ "Active")
    × ((card "" colours 21 false false).badge ≡ "Expired")
    × (alert "error" "" ≡ none)
unfolding card badge alert alert_style
card_test = (refl, refl, refl, refl)
