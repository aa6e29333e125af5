-- ===== src/ManagePollPage/Actions.antt =====
-- The creator's actions: what is sent, and what the answers do.
use pulsepoll_hcl_guvi.Prelude.{
  ◌≤◌, ◌<◌, ◌≡◌, refl, ◌⊎◌, ◌==◌, String, true, false, none, some, ◌∷◌, arith,
}
use pulsepoll_hcl_guvi.Text
use pulsepoll_hcl_guvi.Text.{truthy, trim}
use pulsepoll_hcl_guvi.Api
use pulsepoll_hcl_guvi.Auth.{ok, error, Failure}
use pulsepoll_hcl_guvi.Results.{Poll}
use pulsepoll_hcl_guvi.ManagePollPage.{
  Page, handle_close, close_answered, handle_delete, delete_answered, handle_save, save_answered,
  is_closed, question_of, saving,
}

-- Saving sends the trimmed question, and starts processing, exactly if it has 3 to 255 code units;
-- otherwise nothing is sent and only the error message changes.
pub handle_save_lem :
    (p : Page)
    → let (q, call) = handle_save p in
      let n = Text.length (trim p.edited_question) in
      ((3 ≤ n)
        × (n ≤ 255)
        × (q ≡ record p {
          is_processing = true;
          page_error = "";
          acting = saving (trim p.edited_question) ∷ p.acting;
        })
        × (call ≡ some (Api.update_poll p.poll_id (trim p.edited_question))))
      ⊎ (((n < 3) ⊎ (255 < n))
          × (call ≡ none)
          × (q ≡ record p { page_error = "Question must be between 3 and 255 characters." }))
unfolding handle_save
handle_save_lem p = ground arith

-- Nothing is sent without the creator's confirmation, and then the page is unchanged.
unconfirmed : (p : Page) → (handle_close false p ≡ (p, none)) × (handle_delete false p ≡ (p, none))
unfolding handle_close handle_delete
unconfirmed p = (refl, refl)

-- The answers to the three actions, where the page has a poll and the saved question is not empty.
-- After a close the poll is closed on the page, or has the status that the server's answer names;
-- an error, whatever it is, keeps the poll and the page where they are and gives the buttons back;
-- a deletion leads to the dashboard; a saved question is shown as the server returns it, or as it
-- was sent if the server returns none.
pub answers_lem :
    (p : Page) (e : Failure) (poll updated : Poll) (trimmed question : String)
    → p.poll ≡ some poll
    → truthy question ≡ true
    → (is_closed (close_answered (ok none) p) ≡ true)
      × (is_closed (close_answered (ok (some updated)) p) ≡ (updated.status == "closed"))
      × ((close_answered (error e) p).poll ≡ p.poll)
      × ((close_answered (error e) p).is_processing ≡ false)
      × ((delete_answered (ok tt) p).went_to ≡ some "/dashboard")
      × ((delete_answered (error e) p).went_to ≡ p.went_to)
      × ((delete_answered (error e) p).is_processing ≡ false)
      × (question_of (save_answered trimmed (ok question) p).poll ≡ question)
      × (question_of (save_answered trimmed (ok "") p).poll ≡ trimmed)
      × ((save_answered trimmed (error e) p).poll ≡ p.poll)
      × ((save_answered trimmed (error e) p).is_processing ≡ false)
unfolding close_answered delete_answered save_answered is_closed
answers_lem p e poll updated trimmed question h t = ground arith
