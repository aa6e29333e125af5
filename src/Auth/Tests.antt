-- ===== src/Auth/Tests.antt =====
-- The theorems on the session at one visitor.
use pulsepoll_hcl_guvi.Prelude.{String, true, false, ◌≡◌, refl, none, some, [], ◌∷◌}
use pulsepoll_hcl_guvi.Api
use pulsepoll_hcl_guvi.Auth.{
  User, Session, Failure, LoginData, ok, error, start, check_auth, logged_in, logout,
  is_authenticated, checked, login, sign_out, step, run,
}
use pulsepoll_hcl_guvi.Auth.Storage.{IsSettled}
use pulsepoll_hcl_guvi.Json.{Json}
use pulsepoll_hcl_guvi.Client.{Env, header, build}
use pulsepoll_hcl_guvi.Auth.Requests.{options_of, bearer, requests_authorized}
use pulsepoll_hcl_guvi.Auth.Race.{login_overtakes_check}

session_functions : Unit {0}
unfolding step run start check_auth logged_in logout is_authenticated
session_functions = tt

abbrev ann : User
ann = record { id = "1"; name = "Ann"; email = "ann@example.org" }

abbrev ann_login : LoginData
ann_login = record { token = some "t2"; user = some ann }

abbrev unauthorized : Failure
unauthorized = record { message = "Unauthorized"; status = 401; code = "UNAUTHORIZED" }

-- A session whose stored token is being checked.
abbrev checking : Session
checking = (check_auth (start (some "t1"))).0

abbrev visitor : Session
visitor = run (start none) []

session_test :
    (is_authenticated (run visitor (login (ok ann_login) ∷ [])) ≡ true)
    × ((run visitor (login (ok ann_login) ∷ sign_out ∷ [])).stored ≡ none)
    × ((run checking (checked (ok (some ann)) ∷ [])).token ≡ some "t1")
    × ((run checking (checked (error unauthorized) ∷ [])).stored ≡ none)
    × ((check_auth (start none)).0.loading ≡ false)
unfolding session_functions
session_test = (refl, refl, refl, refl, refl)

abbrev signed_in : Session
signed_in = run visitor (login (ok ann_login) ∷ [])

abbrev local : Env
local = record { api_base_url = none; api_url = none; ws_url = none }

abbrev no_json : Json → String
no_json j = ""

visitor-IsSettled : IsSettled visitor
unfolding session_functions
visitor-IsSettled = record { quiet = refl; same_token = refl }

requests_authorized_example :
    let now = run visitor (login (ok ann_login) ∷ login (error unauthorized) ∷ []) in
    header "Authorization"
      (build local now.stored Api.get_me.endpoint (options_of no_json Api.get_me)).headers
    ≡ bearer now.token
requests_authorized_example =
    requests_authorized local no_json visitor
      (login (ok ann_login) ∷ login (error unauthorized) ∷ []) Api.get_me visitor-IsSettled

login_overtakes_check_example :
    let t = run checking (login (ok ann_login) ∷ checked (error unauthorized) ∷ []) in
    (is_authenticated (step checking (login (ok ann_login))) ≡ true)
    × (t.stored ≡ none)
    × (is_authenticated t ≡ false)
unfolding session_functions
login_overtakes_check_example =
    login_overtakes_check checking "t1" ann_login ann unauthorized refl refl refl
