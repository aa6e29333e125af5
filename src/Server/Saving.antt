-- ===== src/Server/Saving.antt =====
-- A question that the creator saves, to the server and back to the page.

use pulsepoll_hcl_guvi.Prelude.{
  ◌≤◌, ◌≡◌, refl, ap, ◌∙◌, String, true, false, none, some, arith, eq_refl, ◌==◌,
}
use pulsepoll_hcl_guvi.Text
use pulsepoll_hcl_guvi.Text.{truthy, trim}
use pulsepoll_hcl_guvi.Text.Ascii.{is_ascii, len-ascii}
use pulsepoll_hcl_guvi.Text.Trim.{trim-ascii, trim_idem, truthy_of_length}
use pulsepoll_hcl_guvi.Api.{Call}
use pulsepoll_hcl_guvi.Auth.{ok}
use pulsepoll_hcl_guvi.Results.{Poll}
use pulsepoll_hcl_guvi.ManagePollPage.{Page, handle_save, save_answered, question_of}
use pulsepoll_hcl_guvi.Server.Polls.{Stored, with_question, PollRepository, returned, update_poll}

sent_length :
    (page : Page) (call : Call)
    → (handle_save page).1 ≡ some call
    → (3 ≤ Text.length (trim page.edited_question))
      × (Text.length (trim page.edited_question) ≤ 255)
unfolding handle_save
sent_length page call h = ground arith

module _ {P : Type 0} ⦃repo : PollRepository P⦄ (trim_space : String → String)
    (trims : (s : String) → is_ascii s ≡ true → trim_space s ≡ trim s) where
  renamed :
      (p : P) (id question : String) (s : Stored)
      → repo.find_by_id p id ≡ some s
      → truthy s.creator_id ≡ true
      → truthy id ≡ true
      → (s.poll.status == "closed") ≡ false
      → is_ascii question ≡ true
      → 3 ≤ Text.length (trim question)
      → Text.length (trim question) ≤ 255
      → update_poll trim_space true s.creator_id id (trim question) p ≡ record {
        store = repo.update p id (trim question) s.poll.options;
        answer = returned (with_question (trim question) s.poll);
        event = none;
      }
  unfolding update_poll
  renamed p id question s here creator named active ascii low high =
      rw
        (
          creator,
          named,
          here,
          trims (trim question) (trim-ascii question ascii) ∙ trim_idem question,
          eq_refl s.creator_id,
          active,
        )
        (ground (arith, len-ascii (trim question) (trim-ascii question ascii)))

  -- If the creator of a poll that is not closed saves an ASCII question that the page sends, and the write
  -- succeeds: the server, whose `TrimSpace` does to ASCII texts what `trim` does, stores the trimmed
  -- question, and the page that shows a poll shows that question once the answer arrives.
  pub save_round_trip :
      (p : P) (id : String) (s : Stored) (page : Page) (call : Call) (shown : Poll)
      → repo.find_by_id p id ≡ some s
      → truthy s.creator_id ≡ true
      → truthy id ≡ true
      → (s.poll.status == "closed") ≡ false
      → is_ascii page.edited_question ≡ true
      → (handle_save page).1 ≡ some call
      → page.poll ≡ some shown
      → let question = trim page.edited_question in
        let out = update_poll trim_space true s.creator_id id question p in
        (poll : Poll) × (out.answer ≡ returned poll)
        × (repo.find_by_id out.store id ≡ some (record s { poll = with_question question s.poll }))
        × (question_of (save_answered question (ok poll.question) page).poll ≡ question)
  unfolding save_answered
  save_round_trip p id s page call shown here creator named active ascii sent has =
      let (low, high) = sent_length page call sent in
      let question = trim page.edited_question in
      let done = renamed p id page.edited_question s here creator named active ascii low high in
      (
        with_question question s.poll,
        ap (λ o. o.answer) done,
        ap (λ o. repo.find_by_id o.store id) done
            ∙ rw (repo.update_finds p id question s.poll.options id, repo.same_refl id, here) refl,
        rw (has, truthy_of_length question (omega (arith, low))) refl,
      )
