-- ===== src/Server/Editing/Tests.antt =====
-- The theorem on the IDs, for a poll of two options.
use pulsepoll_hcl_guvi.Prelude.{◌≡◌, refl, String, false, List, [], ◌∷◌}
use pulsepoll_hcl_guvi.Results.{PollOption}
use pulsepoll_hcl_guvi.Server.{has_option}
use pulsepoll_hcl_guvi.Server.Editing.{edited, edit_options}
use pulsepoll_hcl_guvi.Server.Editing.Ids.{unnamed, named, all_named, repeated_id_loses_options}

abbrev same : String → String
same s = s

abbrev two : List PollOption
two = record { id = "a"; text = "Thai" } ∷ record { id = "b"; text = "Pizza" } ∷ []

abbrev renamed : List PollOption
renamed = record { id = "a"; text = "Noodles" } ∷ record { id = "b"; text = "Rice" } ∷ []

texts_accepted : edit_options same same two (unnamed ("Noodles" ∷ "Rice" ∷ [])) ≡ edited renamed
unfolding edit_options
texts_accepted = refl

repeated_id_loses_options_example :
    (edit_options same same two (named "a" ("Noodles" ∷ "Rice" ∷ []))
      ≡ edited (all_named same same "a" ("Noodles" ∷ "Rice" ∷ [])))
    × (has_option "b" (all_named same same "a" ("Noodles" ∷ "Rice" ∷ [])) ≡ false)
repeated_id_loses_options_example =
    repeated_id_loses_options same same "a" "b" two renamed "Noodles" ("Rice" ∷ []) refl refl refl
      refl refl texts_accepted
