-- ===== src/ManagePollPage/Console.antt =====
-- The creator's console as a machine: the events of the page, and what each does. The browser's own
-- refusal of an empty question (`required`) is left out: the handler refuses it as well.
use pulsepoll_hcl_guvi.Prelude.{
  ◌+◌, ◌-◌, String, Bool, true, false, not, ◌&&◌, ◌||◌, Option, none, some, List, [], ◌∷◌, ltb,
  if◌then◌else◌, ◌==◌,
}
use pulsepoll_hcl_guvi.Text.{truthy}
use pulsepoll_hcl_guvi.Api.{Call}
use pulsepoll_hcl_guvi.Auth.{Reply}
use pulsepoll_hcl_guvi.Results.{Poll}
use pulsepoll_hcl_guvi.Socket.{Delivery}
use pulsepoll_hcl_guvi.PublicPollPage.{Counted}
use pulsepoll_hcl_guvi.ManagePollPage.{
  Action, closing, deleting, saving, Page, fetch, poll_arrived, results_arrived, receive,
  handle_close, close_answered, handle_delete, delete_answered, handle_save, save_answered, edit,
  cancel_edit, is_closed,
}

-- `handleCopyLink`, by whether the clipboard takes the link
unfoldable pub set_copied : Bool → Page → Page
set_copied true p = record p { copied = true; copied_timers = p.copied_timers + 1 }
set_copied false p = record p { copied = false }

abbrev pub has_poll : Option Poll → Bool
has_poll none = false
has_poll (some _) = true

abbrev pub has_left : Option String → Bool
has_left none = false
has_left (some _) = true

-- The console is on the screen.
unfoldable pub is_console : Page → Bool
is_console p =
    not p.loading && not (truthy p.page_error && not (has_poll p.poll)) && not (has_left p.went_to)

-- The buttons that start an action are enabled.
unfoldable pub can_act : Page → Bool
unfolding is_console
can_act p = is_console p && not p.is_processing

-- What happens to the page. The creator acts through the controls that are shown and enabled, and
-- an answer comes only to an action that is under way.
pub data Event : Type 0 where
  load : Event
  polled : Reply Poll → Event
  counted : Poll → Reply Counted → Event
  delivered : Delivery → Event
  press_close press_delete : Bool → Event
  closed : Reply (Option Poll) → Event
  deleted : Reply (Unit {0}) → Event
  press_edit press_save press_cancel : Event
  type_question : String → Event
  saved : String → Reply String → Event
  copy : Bool → Event
  dismiss_error dismiss_success message_timeout copied_timeout : Event

abbrev pub is_same : Action → Action → Bool
is_same closing closing = true
is_same deleting deleting = true
is_same (saving q) (saving r) = q == r
is_same _ _ = false

abbrev pub is_acting : Action → List Action → Bool
is_acting a [] = false
is_acting a (b ∷ bs) = is_same a b || is_acting a bs

abbrev pub drop_one : Action → List Action → List Action
drop_one a [] = []
drop_one a (b ∷ bs) = if is_same a b then bs else b ∷ drop_one a bs

-- the page as an answer to `a` finds it
abbrev pub taking : Action → Page → Page
taking a p = record p { acting = drop_one a p.acting }

unfoldable pub step : Page → Event → Page
unfolding fetch poll_arrived results_arrived receive handle_close close_answered handle_delete
    delete_answered handle_save save_answered edit cancel_edit is_closed set_copied is_console
    can_act
step p load = (fetch p).0
step p (polled reply) = (poll_arrived reply p).0
step p (counted poll reply) = results_arrived poll reply p
step p (delivered d) = receive d p
step p (press_close confirmed) =
    if can_act p && not (is_closed p) then (handle_close confirmed p).0 else p
step p (closed reply) =
    if is_acting closing p.acting then close_answered reply (taking closing p) else p
step p (press_delete confirmed) = if can_act p then (handle_delete confirmed p).0 else p
step p (deleted reply) =
    if is_acting deleting p.acting then delete_answered reply (taking deleting p) else p
step p press_edit = if is_console p && not p.is_editing && not (is_closed p) then edit p else p
step p (type_question q) = if can_act p && p.is_editing then record p { edited_question = q } else p
step p press_save = if can_act p && p.is_editing then (handle_save p).0 else p
step p press_cancel = if can_act p && p.is_editing then cancel_edit p else p
step p (saved q reply) =
    if is_acting (saving q) p.acting then save_answered q reply (taking (saving q) p) else p
step p (copy done) = if is_console p then set_copied done p else p
step p dismiss_error = record p { page_error = "" }
step p dismiss_success = record p { action_success = "" }
step p message_timeout =
    if ltb 0 p.message_timers
    then record p { action_success = ""; message_timers = p.message_timers - 1 }
    else p
step p copied_timeout =
    if ltb 0 p.copied_timers
    then record p { copied = false; copied_timers = p.copied_timers - 1 }
    else p

unfoldable pub run : Page → List Event → Page
run p [] = p
run p (e ∷ es) = run (step p e) es

-- the call that the creator's action makes
unfoldable pub called : Page → Event → Option Call
unfolding handle_close handle_delete handle_save is_closed is_console can_act
called p (press_close confirmed) =
    if can_act p && not (is_closed p) then (handle_close confirmed p).1 else none
called p (press_delete confirmed) = if can_act p then (handle_delete confirmed p).1 else none
called p press_save = if can_act p && p.is_editing then (handle_save p).1 else none
called p _ = none

abbrev pub prepend {ℓ} : {A : Type ℓ} → Option A → List A → List A
prepend none xs = xs
prepend (some x) xs = x ∷ xs

-- the calls of a run
unfoldable pub calls : Page → List Event → List Call
unfolding called step
calls p [] = []
calls p (e ∷ es) = prepend (called p e) (calls (step p e) es)
