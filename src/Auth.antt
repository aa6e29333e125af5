-- ===== src/Auth.antt =====
-- frontend/src/context/AuthContext.jsx: the session as a state machine. Each asynchronous
-- function is split at its `await`: the call that it makes, and what it does with the answer.
-- `stored` is what localStorage holds under 'pulsepoll_token'.
mod Storage
mod Race
pub mod Requests
mod Tests
use pulsepoll_hcl_guvi.Prelude.{
  ℕ, String, Bool, true, false, ◌&&◌, Option, none, some, List, [], ◌∷◌, if◌then◌else◌,
}
use pulsepoll_hcl_guvi.Text.{truthy}
use pulsepoll_hcl_guvi.Api
use pulsepoll_hcl_guvi.Api.{Call}

pub record User : Type 0 where
  pub id : String
  pub name : String
  pub email : String

-- `mounted` is the flag of the effect that checks the stored token; `checking` is its
-- `storedToken` while the answer to `getMe` is awaited.
pub record Session : Type 0 where
  pub user : Option User
  pub token : Option String
  pub loading : Bool
  pub stored : Option String
  pub mounted : Bool
  pub checking : Option String

-- What a page catches: an `ApiError`, or the plain error of `login`. A member that is `undefined`
-- is 0 or the empty text.
pub record Failure : Type 0 where
  pub message : String
  pub status : ℕ
  pub code : String

pub data Reply {ℓ} (A : Type ℓ) : Type ℓ where
  ok : A → Reply A
  error : Failure → Reply A

-- `{ token, user }`, each of which may be missing
pub record LoginData : Type 0 where
  pub token : Option String
  pub user : Option User

abbrev pub has_token : Option String → Bool
has_token none = false
has_token (some t) = truthy t

abbrev pub has_user : Option User → Bool
has_user none = false
has_user (some _) = true

-- the first render of `AuthProvider`
unfoldable pub start : Option String → Session
start stored = record {
  user = none;
  token = stored;
  loading = true;
  stored = stored;
  mounted = true;
  checking = none;
}

-- `checkAuth` up to its `await`
unfoldable pub check_auth : Session → Session × Option Call
check_auth s =
    if has_token s.stored
    then (record s { checking = s.stored }, some Api.get_me)
    else (if s.mounted then record s { user = none; loading = false } else s, none)

abbrev pub accept : String → Option User → Session → Session
accept stored_token none s = s
accept stored_token (some u) s =
    if s.mounted then record s { user = some u; token = some stored_token } else s

abbrev pub finish : Session → Session
finish s = if s.mounted then record s { loading = false } else s

abbrev pub reject : Session → Session
reject s =
    if s.mounted
    then record s { stored = none; user = none; token = none }
    else record s { stored = none }

-- `checkAuth` behind its `await`, whose answer is the `user` member
abbrev pub settle_check : String → Reply (Option User) → Session → Session
settle_check stored_token (ok u) s = finish (accept stored_token u s)
settle_check stored_token (error e) s = finish (reject s)

abbrev pub refused : Failure
refused = record { message = "Invalid response from server during login."; status = 0; code = "" }

abbrev pub take_login : Option String → Option User → Session → Session × Reply User
take_login (some t) (some u) s =
    if truthy t
    then (record s { stored = some t; token = some t; user = some u }, ok u)
    else (s, error refused)
take_login _ _ s = (s, error refused)

-- `login` behind its `await`: the new session, and the user that it returns or what it throws
unfoldable pub logged_in : Reply LoginData → Session → Session × Reply User
logged_in (error e) s = (s, error e)
logged_in (ok d) s = take_login d.token d.user s

-- `register`: the call that follows the answer to the first one
unfoldable pub registered : (email password : String) → Reply (Unit {0}) → Reply Call
registered email password (ok _) = ok (Api.login email password)
registered email password (error e) = error e

unfoldable pub logout : Session → Session
logout s = record s { stored = none; token = none; user = none }

unfoldable pub is_authenticated : Session → Bool
is_authenticated s = has_user s.user && has_token s.token

-- What happens to a session. The answer to `getMe` comes only while it is awaited.
pub data Event : Type 0 where
  checked : Reply (Option User) → Event
  login : Reply LoginData → Event
  sign_out : Event
  leave : Event

abbrev pub answer : Option String → Reply (Option User) → Session → Session
answer none reply s = s
answer (some t) reply s = settle_check t reply (record s { checking = none })

unfoldable pub step : Session → Event → Session
unfolding logged_in logout
step s (checked reply) = answer s.checking reply s
step s (login reply) = (logged_in reply s).0
step s sign_out = logout s
step s leave = record s { mounted = false }

unfoldable pub run : Session → List Event → Session
run s [] = s
run s (e ∷ es) = run (step s e) es
