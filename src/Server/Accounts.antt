-- ===== src/Server/Accounts.antt =====
-- backend/internal/auth/service.go, jwt.go and password.go, and backend/internal/middleware/auth.go:
-- registration, login, and the check of the token of a request. MongoDB's `users` is an interface with
-- the unique index on the email; bcrypt, the signing of tokens and the parsing of addresses are
-- parameters. Times are in seconds, and the names and times of the answers are left out.
mod Tokens
mod Login
mod Tests
use Prim.Native.String.{[], ◌∷◌}
use Prim.Native.String
use pulsepoll_hcl_guvi.Prelude.{
  ℕ, ◌+◌, ◌<◌, ◌≡◌, String, Bool, true, false, not, ◌&&◌, ◌||◌, Option, none, some, ltb, nat_eq,
  code, if◌then◌else◌, ◌==◌,
}
use pulsepoll_hcl_guvi.Text.{truthy, includes, is_space, trim}
use pulsepoll_hcl_guvi.Text.Ascii.{is_ascii}

-- `User`; the repository makes its id
pub record User : Type 0 where
  pub id : String
  pub name : String
  pub email : String
  pub password_hash : String

-- A token, of base64 parts with dots, or an id, of hexadecimal digits: ASCII without a space.
abbrev pub is_bare : String → Bool
is_bare [] = true
is_bare (c ∷ s) = ltb (code c) 128 && not (is_space (code c)) && is_bare s

-- `UserRepository` over the collection `U`
pub record UserRepository (U : Type 0) : Type 0 where
  pub find_by_email : U → (email : String) → Option User
  pub find_by_id : U → (id : String) → Option User
  -- the collection with the user and its id, or `none` as the error of the unique index
  pub create : U → User → Option (U × String)
  pub create_finds :
      (us vs : U) (u : User) (id : String)
      → create us u ≡ some (vs, id)
      → find_by_email vs u.email ≡ some (record u { id = id })
  pub create_finds_id :
      (us vs : U) (u : User) (id : String)
      → create us u ≡ some (vs, id)
      → find_by_id vs id ≡ some (record u { id = id })
  pub create_id :
      (us vs : U) (u : User) (id : String)
      → create us u ≡ some (vs, id)
      → (is_bare id && truthy id) ≡ true

-- Which of the operations succeed during a call: the reads, the insertion, and the hash.
pub record AccountWorks : Type 0 where
  pub find : Bool
  pub create : Bool
  pub hash : Bool

pub record RegisterRequest : Type 0 where
  pub name : String
  pub email : String
  pub password : String

pub record LoginRequest : Type 0 where
  pub email : String
  pub password : String

-- What `Register` ends with: an error, or the id of the user.
pub data Registration : Type 0 where
  invalid_input duplicate_email register_failed : Registration
  registered : String → Registration

-- What `Login` ends with: an error, or the token and the user.
pub data LoginResult : Type 0 where
  invalid_credentials login_failed : LoginResult
  logged_in : String → User → LoginResult

-- `CustomClaims`
pub record Claims : Type 0 where
  pub user_id : String
  pub email : String
  pub subject : String
  pub issuer : String
  pub expires_at : ℕ

-- What `Authenticate` does with a request: an answer of 401, or the identity for the handler.
pub data Identity : Type 0 where
  unauthorized : Identity
  identity : (user_id email : String) → Identity

-- `strings.SplitN(header, " ", 2)` where it has two parts
unfoldable pub split_space : String → Option (String × String)
split_space [] = none
split_space (c ∷ s) =
    let rest = split_space s in
    if nat_eq (code c) 32
    then some ("", s)
    else elim rest [ none ↦ none | some p ↦ some (c ∷ p.0, p.1) ]

-- `TrimSpace`, `ToLower` and `EqualFold` of strings, `mail.ParseAddress`, bcrypt, and the signing and
-- the verification of tokens at a time, which refuses an expired one
pub record Libraries : Type 0 where
  pub trim_space : String → String
  pub to_lower : String → String
  pub equal_fold : String → String → Bool
  pub parse_address : String → Bool
  pub hash : String → String
  pub check : (password hashed : String) → Bool
  pub sign : Claims → Option String
  pub parse : ℕ → String → Option Claims
  pub trims : (s : String) → is_ascii s ≡ true → trim_space s ≡ trim s
  pub folds : (s : String) → equal_fold s s ≡ true
  pub hash_checks : (password : String) → check password (hash password) ≡ true
  pub sign_bare : (c : Claims) (t : String) → sign c ≡ some t → (is_bare t && truthy t) ≡ true
  pub sign_parses :
      (c : Claims) (t : String) (now : ℕ)
      → sign c ≡ some t
      → now < c.expires_at
      → parse now t ≡ some c

abbrev pub after_create : {U : Type 0} → U → Option (U × String) → U × Registration
after_create us none = (us, duplicate_email)
after_create us (some (vs, id)) = (vs, registered id)

-- the checks of `Validate` after the library's
abbrev pub claimed : Option Claims → Option Claims
claimed none = none
claimed (some c) =
    if not (c.issuer == "pulsepoll")
    then none
    else if not (truthy c.subject) || not (c.subject == c.user_id)
    then none
    else some c

abbrev pub identify : Option Claims → Identity
identify none = unauthorized
identify (some c) = identity c.user_id c.email

abbrev header_or_empty : Option String → String
header_or_empty none = ""
header_or_empty (some h) = h

module _ (lib : Libraries) where
  -- `validateRegistration`, as whether it returns no error
  unfoldable pub validate_registration : (name email password : String) → Bool
  validate_registration name email password =
      if ltb (String.len name) 2 || ltb 100 (String.len name)
      then false
      else if not (truthy email) || ltb 255 (String.len email)
      then false
      else if not (lib.parse_address email) || not (includes email ".")
      then false
      else if ltb (String.len password) 8
      then false
      else not (ltb 72 (String.len password))

module _ (lib : Libraries) {U : Type 0} ⦃repo : UserRepository U⦄ where
  -- `Register` from the lookup of the email on; `HashPassword` fails on an empty password
  abbrev pub unless_found :
      AccountWorks → U → (name email password : String) → Option User → U × Registration
  unless_found w us name email password (some _) = (us, duplicate_email)
  unless_found w us name email password none =
      if not w.hash || not (truthy password)
      then (us, register_failed)
      else if not w.create
      then (us, register_failed)
      else after_create us (
          repo.create us
            (record { id = ""; name = name; email = email; password_hash = lib.hash password }))

  -- `Register`
  unfoldable pub register : AccountWorks → U → RegisterRequest → U × Registration
  unfolding validate_registration
  register w us r =
      let name = lib.trim_space r.name in
      let email = lib.to_lower (lib.trim_space r.email) in
      if not (validate_registration lib name email r.password)
      then (us, invalid_input)
      else if not w.find
      then (us, register_failed)
      else unless_found w us name email r.password (repo.find_by_email us email)

-- the claims of `Generate`
abbrev pub claims_of : (expiry now : ℕ) → User → Claims
claims_of expiry now u = record {
  user_id = u.id;
  email = u.email;
  subject = u.id;
  issuer = "pulsepoll";
  expires_at = now + expiry;
}

abbrev pub with_token : User → Option String → LoginResult
with_token u none = login_failed
with_token u (some t) = logged_in t u

module _ (lib : Libraries) (expiry : ℕ) where
  abbrev pub if_found : ℕ → (password : String) → Option User → LoginResult
  if_found now password none = invalid_credentials
  if_found now password (some u) =
      if not (lib.check password u.password_hash)
      then invalid_credentials
      else with_token u (lib.sign (claims_of expiry now u))

module _ (lib : Libraries) (expiry : ℕ) {U : Type 0} ⦃repo : UserRepository U⦄ where
  -- `Login`, at the time `now`
  unfoldable pub login : AccountWorks → U → ℕ → LoginRequest → LoginResult
  login w us now r =
      let email = lib.to_lower (lib.trim_space r.email) in
      if not (truthy email) || not (truthy r.password)
      then invalid_credentials
      else if not w.find
      then login_failed
      else if_found lib expiry now r.password (repo.find_by_email us email)

module _ (lib : Libraries) {U : Type 0} ⦃repo : UserRepository U⦄ where
  -- `GetProfile`: `none` is an error, as of a user that is not found.
  unfoldable pub get_profile : AccountWorks → U → (user_id : String) → Option User
  get_profile w us user_id =
      if not (truthy (lib.trim_space user_id)) || not w.find
      then none
      else repo.find_by_id us user_id

module _ (lib : Libraries) where
  -- `JWTManager.Validate`, at the time `now`
  unfoldable pub validate : ℕ → String → Option Claims
  validate now token =
      let trimmed = lib.trim_space token in
      if not (truthy trimmed) then none else claimed (lib.parse now trimmed)

  abbrev by_parts : ℕ → Option (String × String) → Identity
  by_parts now none = unauthorized
  by_parts now (some (scheme, rest)) =
      if not (lib.equal_fold scheme "Bearer")
      then unauthorized
      else if not (truthy (lib.trim_space rest))
      then unauthorized
      else identify (validate now (lib.trim_space rest))

  -- `Authenticate`, for the Authorization header of a request
  unfoldable pub authenticate : ℕ → Option String → Identity
  unfolding split_space validate
  authenticate now header =
      let trimmed = lib.trim_space (header_or_empty header) in
      if not (truthy trimmed) then unauthorized else by_parts now (split_space trimmed)
