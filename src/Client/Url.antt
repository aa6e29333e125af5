-- ===== src/Client/Url.antt =====
-- The base URLs of frontend/src/api/client.js, however the environment spells them.
use Prim.Native.String.{[], ◌∷◌}
use text.Mathlib.TextLemmas.{nil-append, cons-append}
use pulsepoll_hcl_guvi.Prelude.{
  ◌≡◌, refl, ◌∙◌, ap, true, false, String, ◌==◌, Bool, if◌then◌else◌, Bool-cases, inl, inr, arith,
  none,
}
use pulsepoll_hcl_guvi.Text.{◌⧺◌, or_else, ends_with, trim, trim_start, trim_end}
use pulsepoll_hcl_guvi.Text.Laws.{cons_not_empty, ends_with_split, ends_with-append}
use pulsepoll_hcl_guvi.Client.{
  Env, set_or, api_base, api_base_url, ws_base_url, strip_slashes, with_api, to_ws,
}

append-not_empty : (a : String) → ((a ⧺ "/api") == "") ≡ false
append-not_empty [] = refl
append-not_empty (c ∷ a) = rw cons-append (cons_not_empty c (a ⧺ "/api"))

strip_slashes-append : (a : String) → strip_slashes (a ⧺ "/api") ≡ a ⧺ "/api"
unfolding strip_slashes
strip_slashes-append [] = refl
strip_slashes-append (c ∷ a) =
    rw cons-append (rw (strip_slashes-append a) (ground (arith, append-not_empty a)))

strip_slashes-slash : (s : String) → strip_slashes (s ⧺ "/") ≡ strip_slashes s
unfolding strip_slashes
strip_slashes-slash [] = refl
strip_slashes-slash (c ∷ s) = rw (cons-append, strip_slashes) (rw (strip_slashes-slash s))

with_api_split : (s : String) → (a : String) × (with_api s ≡ a ⧺ "/api")
unfolding with_api
with_api_split s = elim (Bool-cases (ends_with s "/api")) [
  | inl e ↦ let (a, q) = ends_with_split s "/api" e in (a, rw e q)
  | inr e ↦ (s, rw e)
]

with_api-append : (a : String) → with_api (a ⧺ "/api") ≡ a ⧺ "/api"
unfolding with_api
with_api-append a = rw (ends_with-append a "/api")

-- However `rawBase` is spelled: the base URL ends in "/api"; a slash behind it makes no
-- difference; and a base URL that is configured as `rawBase` is left as it is.
pub api_base-stable :
    (raw : String)
    → (ends_with (api_base raw) "/api" ≡ true)
      × (api_base (raw ⧺ "/") ≡ api_base raw)
      × (api_base (api_base raw) ≡ api_base raw)
unfolding api_base
api_base-stable raw =
    let (a, q) = with_api_split (strip_slashes raw) in
    (
      rw q (ends_with-append a "/api"),
      rw (strip_slashes-slash raw),
      rw q (rw (strip_slashes-append a) (with_api-append a)),
    )

to_ws-https : (rest : String) → to_ws ("https://" ⧺ rest) ≡ "wss://" ⧺ rest
unfolding to_ws
to_ws-https rest =
    rw
      (
        cons-append, cons-append, cons-append, cons-append, cons-append, cons-append, cons-append,
        cons-append, nil-append,
      )
      refl

to_ws-http : (rest : String) → to_ws ("http://" ⧺ rest) ≡ "ws://" ⧺ rest
unfolding to_ws
to_ws-http rest =
    rw
      (
        cons-append, cons-append, cons-append, cons-append, cons-append, cons-append, cons-append,
        nil-append,
      )
      refl

-- Without a VITE_WS_URL the WebSocket base URL is the API's base URL with its scheme replaced:
-- https by wss and http by ws.
pub ws_base_url-scheme :
    (env : Env) (secure : Bool) (rest : String)
    → env.ws_url ≡ none
    → api_base_url env ≡ (if secure then "https://" else "http://") ⧺ rest
    → ws_base_url env ≡ (if secure then "wss://" else "ws://") ⧺ rest
unfolding ws_base_url trim trim_start trim_end
ws_base_url-scheme env secure rest unset e = start ∙ ap to_ws e ∙ replaced secure
  where
    replaced :
        (b : Bool)
        → to_ws ((if b then "https://" else "http://") ⧺ rest)
          ≡ (if b then "wss://" else "ws://") ⧺ rest
    replaced true = to_ws-https rest
    replaced false = to_ws-http rest

    start : ws_base_url env ≡ to_ws (api_base_url env)
    start = ap (λ o. or_else (trim (set_or o "")) (to_ws (api_base_url env))) unset
