-- ===== src/Client/Tests.antt =====
-- The theorems on `request` at some requests and answers.
use pulsepoll_hcl_guvi.Prelude.{◌≡◌, refl, ◌⊎◌, inl, inr, true, false, none, some, [], ◌∷◌, arith}
use pulsepoll_hcl_guvi.Text.{truthy, trim, trim_start, trim_end, ends_with, starts_with, includes}
use pulsepoll_hcl_guvi.Json.{Json, str, obj, end, field, is_truthy, to_string}
use pulsepoll_hcl_guvi.Client.{
  Env, Options, header, set_header, spread, strip_slashes, with_api, to_ws, after_slashes, retarget,
  authorize, envelope, friendly, api_base, api_base_url, ws_base_url, build, Response, unreachable,
  answered, ApiError, thrown, is_ok, read_body, settle, http_error,
}
use pulsepoll_hcl_guvi.Client.Errors.{IsGeneric, is_array, message_value, settle-thrown}

client_functions : Unit {0}
unfolding api_base api_base_url ws_base_url build settle read_body http_error set_header spread
    strip_slashes with_api to_ws after_slashes retarget authorize envelope friendly includes
    starts_with ends_with trim trim_start trim_end
client_functions = tt

abbrev deployed : Env
deployed = record {
  api_base_url = some "https://pulse.example.org//";
  api_url = none;
  ws_url = none;
}

abbrev casting : Options
casting = record { method = "POST"; body = some "{}"; headers = ("X-Trace", "7") ∷ [] }

abbrev envelope_fields : Json
envelope_fields = obj (
    field "error" (obj (field "code" (str "POLL_CLOSED") (field "message" (str "Closed") end))) end)

abbrev conflict : Response
conflict = record {
  status = 409;
  content_type = some "application/json";
  body = some envelope_fields;
}

abbrev conflict_error : ApiError
conflict_error = record {
  message = "Closed";
  status = 409;
  code = str "POLL_CLOSED";
  raw = envelope_fields;
}

client_test :
    (api_base_url deployed ≡ "https://pulse.example.org/api")
    × (ws_base_url deployed ≡ "wss://pulse.example.org/api")
    × (header "Authorization" (build deployed (some "t1") "polls" casting).headers
        ≡ some "Bearer t1")
    × ((build deployed none "polls" casting).url ≡ "https://pulse.example.org/api/polls")
    × (settle (answered conflict) ≡ thrown conflict_error)
unfolding client_functions
client_test = (refl, refl, refl, refl, refl)

settle-thrown_example :
    (is_truthy conflict_error.code ≡ true)
    × (((answered conflict ≡ unreachable)
          × (conflict_error.status ≡ 0)
          × (truthy conflict_error.message ≡ true))
        ⊎ ((r : Response) × (answered conflict ≡ answered r)
            × (is_ok r.status ≡ false)
            × (conflict_error.status ≡ r.status)
            × (conflict_error.message ≡ to_string (message_value r))
            × (is_truthy (message_value r) ≡ true)
            × (is_array (message_value r) ≡ false → truthy conflict_error.message ≡ true)))
unfolding client_functions
settle-thrown_example = settle-thrown (answered conflict) conflict_error refl

specific : ¬ IsGeneric conflict.status "Closed"
specific (inl h) = omega (arith, h.0)
specific (inr (inl h)) = omega (arith, h.0)
specific (inr (inr h)) = omega (arith, h.0)
