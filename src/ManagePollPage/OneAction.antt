-- ===== src/ManagePollPage/OneAction.antt =====
-- The creator's actions come one at a time, and none follows a deletion.
use pulsepoll_hcl_guvi.Prelude.{
  ◌≡◌, refl, ◌⊎◌, inl, inr, String, Bool, true, false, not, ◌&&◌, none, some, List, [], ◌∷◌, arith,
  if◌then◌else◌,
}
use pulsepoll_hcl_guvi.Auth.{ok, error}
use pulsepoll_hcl_guvi.Socket.{on_snapshot, on_vote_update, on_poll_closed}
use pulsepoll_hcl_guvi.ManagePollPage.{
  Action, closing, deleting, saving, Page, start, fetch, poll_arrived, results_arrived, receive,
  handle_close, close_answered, handle_delete, delete_answered, handle_save, save_answered, edit,
  cancel_edit, is_closed,
}
use pulsepoll_hcl_guvi.ManagePollPage.Console.{
  Event, polled, counted, delivered, press_close, press_delete, closed, deleted, press_save, saved,
  copy, is_acting, drop_one, set_copied, is_console, can_act, step, run, has_left, called, calls,
}

-- The page is idle; or one call is under way, which the buttons wait for; or the poll is deleted, and
-- the page left.
pub record IsOrderly (p : Page) : Type 0 where
  pub phase :
      ((p.acting ≡ []) × (p.is_processing ≡ false) × (p.went_to ≡ none))
      ⊎ ((a : Action) × (p.acting ≡ a ∷ []) × (p.is_processing ≡ true) × (p.went_to ≡ none))
      ⊎ ((p.acting ≡ []) × (p.is_processing ≡ true) × (p.went_to ≡ some "/dashboard"))

pub start-IsOrderly : (poll_id : String) → IsOrderly (start poll_id)
unfolding start
start-IsOrderly poll_id = record { phase = inl (refl, refl, refl) }

-- An answer comes to the one action that is under way.
acting_one :
    (a : Action) (p : Page)
    → IsOrderly p
    → is_acting a p.acting ≡ true
    → (drop_one a p.acting ≡ []) × (p.went_to ≡ none)
acting_one a p v c = go v.phase
  where
    go :
        ((p.acting ≡ []) × (p.is_processing ≡ false) × (p.went_to ≡ none))
          ⊎ ((b : Action) × (p.acting ≡ b ∷ []) × (p.is_processing ≡ true) × (p.went_to ≡ none))
          ⊎ ((p.acting ≡ []) × (p.is_processing ≡ true) × (p.went_to ≡ some "/dashboard"))
        → (drop_one a p.acting ≡ []) × (p.went_to ≡ none)
    go (inl h) = ground arith
    go (inr (inl (b, one, busy, here))) = ground arith
    go (inr (inr h)) = ground arith

if-IsOrderly :
    (b : Bool) (p q : Page)
    → (b ≡ true → IsOrderly p)
    → IsOrderly q
    → IsOrderly (if b then p else q)
if-IsOrderly true p q v w = v refl
if-IsOrderly false p q v w = w

close-IsOrderly :
    (p : Page) (k : Bool) → IsOrderly p → can_act p ≡ true → IsOrderly (handle_close k p).0
unfolding can_act is_console handle_close
close-IsOrderly p k v c = ground (arith, v.phase)

delete-IsOrderly :
    (p : Page) (k : Bool) → IsOrderly p → can_act p ≡ true → IsOrderly (handle_delete k p).0
unfolding can_act is_console handle_delete
delete-IsOrderly p k v c = ground (arith, v.phase)

save-IsOrderly : (p : Page) → IsOrderly p → can_act p ≡ true → IsOrderly (handle_save p).0
unfolding can_act is_console handle_save
save-IsOrderly p v c = ground (arith, v.phase)

pub step-IsOrderly : (p : Page) (e : Event) → IsOrderly p → IsOrderly (step p e)
unfolding step fetch poll_arrived results_arrived receive can_act close_answered delete_answered
    save_answered set_copied edit cancel_edit
step-IsOrderly p (polled (ok poll)) v = ground (arith, v.phase)
step-IsOrderly p (polled (error e)) v = ground (arith, v.phase)
step-IsOrderly p (counted poll (ok c)) v = ground (arith, v.phase)
step-IsOrderly p (counted poll (error e)) v = ground (arith, v.phase)
step-IsOrderly p (delivered (on_snapshot q)) v = ground (arith, v.phase)
step-IsOrderly p (delivered (on_vote_update q)) v = ground (arith, v.phase)
step-IsOrderly p (delivered (on_poll_closed q)) v = ground (arith, v.phase)
step-IsOrderly p (press_close k) v =
    if-IsOrderly (can_act p && not (is_closed p)) (handle_close k p).0 p
      (λ c. close-IsOrderly p k v (ground arith)) v
step-IsOrderly p (press_delete k) v =
    if-IsOrderly (can_act p) (handle_delete k p).0 p (delete-IsOrderly p k v) v
step-IsOrderly p press_save v =
    if-IsOrderly (can_act p && p.is_editing) (handle_save p).0 p
      (λ c. save-IsOrderly p v (ground arith)) v
step-IsOrderly p (closed (ok r)) v = ground (arith, v.phase, acting_one closing p v)
step-IsOrderly p (closed (error e)) v = ground (arith, v.phase, acting_one closing p v)
step-IsOrderly p (deleted (ok r)) v = ground (arith, v.phase, acting_one deleting p v)
step-IsOrderly p (deleted (error e)) v = ground (arith, v.phase, acting_one deleting p v)
step-IsOrderly p (saved q (ok r)) v = ground (arith, v.phase, acting_one (saving q) p v)
step-IsOrderly p (saved q (error e)) v = ground (arith, v.phase, acting_one (saving q) p v)
step-IsOrderly p (copy true) v = ground (arith, v.phase)
step-IsOrderly p (copy false) v = ground (arith, v.phase)
step-IsOrderly p e v = ground (arith, v.phase)

-- However the events of a creator's page are ordered, at most one of its actions is under way at any
-- time; while it is, the page is processing; and once a deletion has succeeded the page has left for
-- the dashboard, with no action under way.
pub run-IsOrderly : (poll_id : String) (es : List Event) → IsOrderly (run (start poll_id) es)
unfolding run
run-IsOrderly poll_id es = go (start poll_id) es (start-IsOrderly poll_id)
  where
    go : (p : Page) (es : List Event) → IsOrderly p → IsOrderly (run p es)
    go p [] v = v
    go p (e ∷ es) v = go (step p e) es (step-IsOrderly p e v)

left_idle : (p : Page) → IsOrderly p → has_left p.went_to ≡ true → p.acting ≡ []
left_idle p v h = ground (arith, v.phase)

-- A page that has left stays so, and calls the server no more for its creator.
step_left :
    (p : Page) (e : Event)
    → p.acting ≡ []
    → has_left p.went_to ≡ true
    → (called p e ≡ none) × ((step p e).acting ≡ []) × (has_left (step p e).went_to ≡ true)
unfolding called step fetch poll_arrived results_arrived receive can_act is_console set_copied
step_left p (polled (ok poll)) n h = ground arith
step_left p (polled (error e)) n h = ground arith
step_left p (counted poll (ok c)) n h = ground arith
step_left p (counted poll (error e)) n h = ground arith
step_left p (delivered (on_snapshot q)) n h = ground arith
step_left p (delivered (on_vote_update q)) n h = ground arith
step_left p (delivered (on_poll_closed q)) n h = ground arith
step_left p e n h = ground arith

calls_left :
    (p : Page) (es : List Event) → p.acting ≡ [] → has_left p.went_to ≡ true → calls p es ≡ []
unfolding calls
calls_left p [] n h = refl
calls_left p (e ∷ es) n h =
    let (none_here, idle, left) = step_left p e n h in
    rw none_here (calls_left (step p e) es idle left)

deleted_left :
    (p : Page)
    → IsOrderly p
    → is_acting deleting p.acting ≡ true
    → ((step p (deleted (ok tt))).acting ≡ [])
      × (has_left (step p (deleted (ok tt))).went_to ≡ true)
unfolding step delete_answered
deleted_left p v h = ground (arith, acting_one deleting p v)

-- If a deletion is under way after some events and the server accepts it, the page calls the server
-- for none of the creator's actions any more, whatever happens afterwards.
pub deletion_final :
    (poll_id : String) (es later : List Event)
    → let p = run (start poll_id) es in
      is_acting deleting p.acting ≡ true → calls (step p (deleted (ok tt))) later ≡ []
deletion_final poll_id es later h =
    let p = run (start poll_id) es in
    let (idle, left) = deleted_left p (run-IsOrderly poll_id es) h in
    calls_left (step p (deleted (ok tt))) later idle left
