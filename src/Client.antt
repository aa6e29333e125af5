-- ===== src/Client.antt =====
-- frontend/src/api/client.js: the base URLs, the headers of a request, and what `request` returns
-- or throws for each answer of `fetch`.
mod Url
pub mod Headers
mod Errors
mod Tests
use Prim.Native.String.{[], ◌∷◌}
use pulsepoll_hcl_guvi.Prelude.{
  ℕ, code, ◌-◌, String, Bool, true, false, not, ◌&&◌, ◌||◌, Option, none, some, List, [], ◌∷◌, leb,
  nat_eq, if◌then◌else◌, ◌==◌,
}
use pulsepoll_hcl_guvi.Text.{◌⧺◌, truthy, or_else, trim, starts_with, ends_with, includes}
use pulsepoll_hcl_guvi.Json.{Json, null, str, get, or_json, is_truthy, is_str, to_string}

-- `import.meta.env`; an unset variable is `none`
pub record Env : Type 0 where
  pub api_base_url : Option String
  pub api_url : Option String
  pub ws_url : Option String

-- `x || d` at a variable that may be unset
abbrev pub set_or : Option String → String → String
set_or none d = d
set_or (some s) d = or_else s d

abbrev raw_base : Env → String
raw_base env = set_or env.api_base_url (set_or env.api_url "http://localhost:8080")

-- `.replace(/\/+$/, '')`
strip_slashes : String → String
strip_slashes [] = []
strip_slashes (c ∷ s) =
    let rest = strip_slashes s in if nat_eq (code c) b'/' && rest == "" then [] else c ∷ rest

-- `API_BASE_URL` from `rawBase`
with_api : String → String
with_api cleaned = if ends_with cleaned "/api" then cleaned else cleaned ⧺ "/api"

unfoldable pub api_base : String → String
unfolding strip_slashes with_api
api_base raw = with_api (strip_slashes raw)

pub api_base_url : Env → String
api_base_url env = api_base (raw_base env)

-- one letter of the regular expression, which ignores case
abbrev is_letter : ℕ → ℕ → Bool
is_letter c l = nat_eq c l || nat_eq c (l - 32)

after_slashes : String → Option String
after_slashes (a ∷ b ∷ c ∷ s) =
    if nat_eq (code a) b':' && nat_eq (code b) b'/' && nat_eq (code c) b'/' then some s else none
after_slashes _ = none

-- the new scheme in front of what follows `http://` or `https://`
retarget : String → String → Option String → String
retarget s scheme none = s
retarget s scheme (some rest) = scheme ⧺ rest

-- `.replace(/^http(s)?:\/\//i, …)`
to_ws : String → String
unfolding after_slashes retarget
to_ws (h ∷ t ∷ u ∷ p ∷ s ∷ rest) =
    if is_letter (code h) b'h'
      && is_letter (code t) b't'
      && is_letter (code u) b't'
      && is_letter (code p) b'p'
    then if is_letter (code s) b's'
      then retarget (h ∷ t ∷ u ∷ p ∷ s ∷ rest) "wss://" (after_slashes rest)
      else retarget (h ∷ t ∷ u ∷ p ∷ s ∷ rest) "ws://" (after_slashes (s ∷ rest))
    else h ∷ t ∷ u ∷ p ∷ s ∷ rest
to_ws s = s

-- `WS_BASE_URL`
pub ws_base_url : Env → String
unfolding to_ws
ws_base_url env = or_else (trim (set_or env.ws_url "")) (to_ws (api_base_url env))

-- A caller's options: `method`, `body` (already serialised) and extra `headers`.
pub record Options : Type 0 where
  pub method : String
  pub body : Option String
  pub headers : List (String × String)

-- What is handed to `fetch`; `credentials` is always 'include'.
pub record Config : Type 0 where
  pub url : String
  pub method : String
  pub body : Option String
  pub headers : List (String × String)
  pub credentials : String

abbrev pub header : String → List (String × String) → Option String
header k [] = none
header k ((j, v) ∷ hs) = if j == k then some v else header k hs

-- an assignment to a member: in place, or behind the last
unfoldable pub set_header : String → String → List (String × String) → List (String × String)
set_header k v [] = (k, v) ∷ []
set_header k v ((j, w) ∷ hs) = if j == k then (k, v) ∷ hs else (j, w) ∷ set_header k v hs

-- `{ ...base, ...extra }`
unfoldable pub spread : List (String × String) → List (String × String) → List (String × String)
spread base [] = base
spread base ((k, v) ∷ extra) = spread (set_header k v base) extra

abbrev default_headers : List (String × String)
default_headers = ("Content-Type", "application/json") ∷ ("Accept", "application/json") ∷ []

-- `if (token && !headers.Authorization)`
authorize : Option String → List (String × String) → List (String × String)
authorize token hs =
    if truthy (set_or token "") && not (truthy (set_or (header "Authorization" hs) ""))
    then set_header "Authorization" ("Bearer " ⧺ set_or token "") hs
    else hs

abbrev full_path : String → String
full_path endpoint = if starts_with endpoint "/" then endpoint else "/" ⧺ endpoint

-- `token` is what localStorage holds under 'pulsepoll_token'
pub build : Env → Option String → String → Options → Config
unfolding authorize
build env token endpoint options = record {
  url = api_base_url env ⧺ full_path endpoint;
  method = options.method;
  body = options.body;
  headers = authorize token (spread default_headers options.headers);
  credentials = "include";
}

-- An answer of the server. `body` is `none` where `response.json()` rejects.
pub record Response : Type 0 where
  pub status : ℕ
  pub content_type : Option String
  pub body : Option Json

pub data Fetched : Type 0 where
  unreachable : Fetched
  answered : Response → Fetched

-- `super(message)` keeps the text of the value that it is given.
pub record ApiError : Type 0 where
  pub message : String
  pub status : ℕ
  pub code : Json
  pub raw : Json

pub data Outcome : Type 0 where
  returned : Json → Outcome
  thrown : ApiError → Outcome

-- `response.ok`, by the Fetch standard
abbrev pub is_ok : ℕ → Bool
is_ok status = leb 200 status && leb status 299

abbrev or_missing : Option Json → Json
or_missing none = null
or_missing (some v) = v

-- `data` after the attempt to read the body
unfoldable pub read_body : Response → Json
read_body r =
    if truthy (set_or r.content_type "") && includes (set_or r.content_type "") "application/json"
    then or_missing r.body
    else null

-- `typeof v === 'object'` at a truthy value
abbrev is_object : Json → Bool
is_object (Json.arr _) = true
is_object (Json.obj _) = true
is_object _ = false

-- `typeof v === 'string'`
abbrev is_string : Json → Bool
is_string (str _) = true
is_string _ = false

-- the code and the message that the envelope gives
unfoldable pub envelope : Json → Json × Json
envelope body =
    let code : Json = str "HTTP_ERROR" in
    let message : Json = str "An unexpected error occurred. Please try again." in
    let error = or_missing (get "error" body) in
    if is_truthy error
    then if is_object error
      then (or_json (get "code" error) code, or_json (get "message" error) message)
      else if is_string error
      then (code, error)
      else (code, message)
    else (code, or_json (get "message" body) message)

-- the friendly texts for 401, 403 and 404
unfoldable pub friendly : ℕ → Json × Json → Json × Json
friendly status (code, message) =
    if nat_eq status 401 && (not (is_truthy message) || is_str message "Unauthorized")
    then (str "UNAUTHORIZED", str "Your session has expired. Please log in again.")
    else if nat_eq status 403 && (not (is_truthy message) || is_str message "Forbidden")
    then (str "FORBIDDEN", str "You do not have permission to perform this action.")
    else if nat_eq status 404 && (not (is_truthy message) || is_str message "Not Found")
    then (str "NOT_FOUND", str "The requested resource was not found.")
    else (code, message)

unfoldable pub http_error : ℕ → Json → ApiError
unfolding envelope friendly to_string
http_error status body =
    let (code, message) = friendly status (envelope body) in
    record { message = to_string message; status = status; code = code; raw = body }

-- What `request` returns or throws once `fetch` has settled. The caught network error, which
-- becomes `raw`, is left out.
unfoldable pub settle : Fetched → Outcome
unfolding http_error
settle unreachable = thrown (record {
  message = "Unable to connect to the server. Please check your connection and try again.";
  status = 0;
  code = str "NETWORK_ERROR";
  raw = null;
})
settle (answered r) =
    if nat_eq r.status 204
    then returned null
    else if is_ok r.status
    then returned (read_body r)
    else thrown (http_error r.status (read_body r))
