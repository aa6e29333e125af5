-- ===== src/Auth/Requests.antt =====
-- The Authorization header of the requests that a session makes, by way of localStorage.
use pulsepoll_hcl_guvi.Prelude.{
  ◌≡◌, refl, ap, ◌∙◌, sym, String, Option, none, some, List, [], if◌then◌else◌, Bool-cases, inl,
  inr,
}
use pulsepoll_hcl_guvi.Text.{◌⧺◌, truthy, or_else}
use pulsepoll_hcl_guvi.Json.{Json}
use pulsepoll_hcl_guvi.Api.{Call}
use pulsepoll_hcl_guvi.Client.{Env, Options, header, build}
use pulsepoll_hcl_guvi.Client.Headers.{build-authorization}
use pulsepoll_hcl_guvi.Auth.{Session, Event, run}
use pulsepoll_hcl_guvi.Auth.Storage.{IsSettled, run-IsSettled}

abbrev text_of : (Json → String) → Option Json → Option String
text_of stringify none = none
text_of stringify (some j) = some (stringify j)

-- the options with which an endpoint calls `request`, which name no header
unfoldable pub options_of : (Json → String) → Call → Options
options_of stringify c = record { method = c.method; body = text_of stringify c.body; headers = [] }

-- the header for a token, if there is one
abbrev pub bearer : Option String → Option String
bearer none = none
bearer (some t) = if truthy t then some ("Bearer " ⧺ t) else none

bearer_default :
    (t : String)
    → (if truthy (or_else t "") then some ("Bearer " ⧺ or_else t "") else none) ≡ bearer (some t)
bearer_default t = elim (Bool-cases (truthy t)) [ inl h ↦ rw (h, h) refl | inr h ↦ rw h refl ]

sent_header :
    (env : Env) (stringify : Json → String) (token : Option String) (c : Call)
    → header "Authorization" (build env token c.endpoint (options_of stringify c)).headers
      ≡ bearer token
unfolding options_of
sent_header env stringify none c = build-authorization env none c.endpoint (options_of stringify c)
sent_header env stringify (some t) c =
    build-authorization env (some t) c.endpoint (options_of stringify c) ∙ bearer_default t

-- From a session with no check under way, whose token is the stored one: after any logins, failed logins
-- and logouts, each call of an endpoint carries the token that the session then has as `Bearer`, and no
-- Authorization header if it has none.
pub requests_authorized :
    (env : Env) (stringify : Json → String) (s : Session) (es : List Event) (c : Call)
    → IsSettled s
    → let now = run s es in
      header "Authorization" (build env now.stored c.endpoint (options_of stringify c)).headers
      ≡ bearer now.token
requests_authorized env stringify s es c v =
    sent_header env stringify (run s es).stored c
    ∙ ap bearer (sym (run-IsSettled s es v).same_token)
