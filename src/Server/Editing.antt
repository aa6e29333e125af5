-- ===== src/Server/Editing.antt =====
-- backend/internal/polls/validation.go: `validateAndUpdatePoll`, the change of a poll's options by a
-- request. `trim_space` and `to_lower` are `TrimSpace` and `ToLower` of Go; `len` counts bytes. The
-- question of the request is in Server/Polls.
mod Ids
mod Tests
use Prim.Native.String
use pulsepoll_hcl_guvi.Prelude.{
  ℕ, ◌≡◌, String, Bool, true, false, not, ◌||◌, List, [], ◌∷◌, length, ltb, nat_eq, if◌then◌else◌,
  ◌==◌,
}
use pulsepoll_hcl_guvi.Text.{truthy}
use pulsepoll_hcl_guvi.Results.{PollOption}
use pulsepoll_hcl_guvi.CreatePollPage.{has}
use pulsepoll_hcl_guvi.Server.{has_option}

-- `UpdateOptionRequest`
pub record UpdateOption : Type 0 where
  pub id : String
  pub text : String

pub data Problem : Type 0 where
  count_changes unknown_id empty_option long_option duplicate_option : Problem

-- the options of the poll after the update, or an error
pub data Edited : Type 0 where
  rejected : Problem → Edited
  edited : List PollOption → Edited

abbrev pub before : PollOption → Edited → Edited
before o (rejected p) = rejected p
before o (edited os) = edited (o ∷ os)

module _ (trim_space : String → String) where
  -- whether some ID is given
  abbrev pub has_ids : List UpdateOption → Bool
  has_ids [] = false
  has_ids (u ∷ us) = truthy (trim_space u.id) || has_ids us

module _ (trim_space to_lower : String → String) where
  -- the checks of a text that both loops make, and the option with it before the rest of the loop
  abbrev pub with_text : (seen : List String) → (id text : String) → Edited → Edited
  with_text seen id text rest =
      let trimmed = trim_space text in
      if ltb (String.len trimmed) 1
      then rejected empty_option
      else if ltb 150 (String.len trimmed)
      then rejected long_option
      else if has (to_lower trimmed) seen
      then rejected duplicate_option
      else before (record { id = id; text = trimmed }) rest

  -- the loop with IDs
  unfoldable pub edit_by_id :
      (existing : List PollOption) → (seen : List String) → List UpdateOption → Edited
  edit_by_id existing seen [] = edited []
  edit_by_id existing seen (u ∷ us) =
      let id = trim_space u.id in
      let rest = edit_by_id existing (to_lower (trim_space u.text) ∷ seen) us in
      if not (has_option id existing) then rejected unknown_id else with_text seen id u.text rest

  -- the loop without IDs, which is given as many options as there are
  unfoldable pub edit_by_position :
      (existing : List PollOption) → (seen : List String) → List UpdateOption → Edited
  edit_by_position [] seen us = edited []
  edit_by_position (o ∷ os) seen [] = edited []
  edit_by_position (o ∷ os) seen (u ∷ us) =
      with_text seen o.id u.text (edit_by_position os (to_lower (trim_space u.text) ∷ seen) us)

  -- the part of `validateAndUpdatePoll` for options
  unfoldable pub edit_options : (existing : List PollOption) → List UpdateOption → Edited
  unfolding edit_by_id edit_by_position
  edit_options existing [] = edited existing
  edit_options existing (u ∷ us) =
      if not (nat_eq (length (u ∷ us)) (length existing))
      then rejected count_changes
      else if has_ids trim_space (u ∷ us)
      then edit_by_id existing [] (u ∷ us)
      else edit_by_position existing [] (u ∷ us)
