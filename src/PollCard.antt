-- ===== src/PollCard.antt =====
-- frontend/src/components/PollCard.jsx, LiveBadge.jsx and Alert.jsx: what they show. `now` is the
-- instant of the rendering.
mod Preview
mod Tests
use pulsepoll_hcl_guvi.Prelude.{
  ℕ, ◌-◌, String, Bool, true, false, ◌&&◌, not, Option, none, some, List, [], ◌∷◌, map, take,
  length, ltb, if◌then◌else◌, ◌==◌,
}
use pulsepoll_hcl_guvi.Text.{◌⧺◌, truthy}
use pulsepoll_hcl_guvi.Results.{Poll}
use pulsepoll_hcl_guvi.Socket.{Status, connected, connecting, reconnecting, disconnected}

-- The card of a poll; `more` is the number behind "+" where the preview is cut.
pub record Card : Type 0 where
  pub badge : String
  pub closed_style : Bool
  pub option_count : ℕ
  pub created_at : Option ℕ
  pub question : String
  pub preview : List String
  pub more : Option ℕ
  pub copy_label : String
  pub share_url : String
  pub manage_path : String
  pub can_delete : Bool

abbrev pub is_past : Option ℕ → ℕ → Bool
is_past none now = false
is_past (some t) now = ltb t now

unfoldable pub badge : Poll → ℕ → String
badge poll now =
    if poll.status == "closed"
    then "Voting Closed"
    else if is_past poll.expires_at now
    then "Expired"
    else "Active"

unfoldable pub card : (origin : String) → Poll → (now : ℕ) → (copied can_delete : Bool) → Card
unfolding badge
card origin poll now copied can_delete = record {
  badge = badge poll now;
  closed_style = poll.status == "closed";
  option_count = length poll.options;
  created_at = poll.created_at;
  question = poll.question;
  preview = map (λ o. o.text) (take 3 poll.options);
  more = if ltb 3 (length poll.options) then some (length poll.options - 3) else none;
  copy_label = if copied then "Copied Link" else "Copy Link";
  share_url = origin ⧺ "/polls/" ⧺ poll.id;
  manage_path = "/polls/" ⧺ poll.id ⧺ "/manage";
  can_delete = can_delete;
}

-- LiveBadge.jsx: the label for each status of the hook
unfoldable pub live_label : Status → String
live_label connected = "Live"
live_label connecting = "Connecting"
live_label reconnecting = "Reconnecting"
live_label disconnected = "Offline"

-- Alert.jsx: the style for a type, and nothing at all without a message
unfoldable pub alert_style : String → String
alert_style kind =
    if kind == "error"
    then "alert-error"
    else if kind == "warning"
    then "alert-warning"
    else if kind == "success"
    then "alert-success"
    else "alert-info"

unfoldable pub alert : (kind message : String) → Option (String × String)
unfolding alert_style
alert kind message = if truthy message then some (alert_style kind, message) else none
