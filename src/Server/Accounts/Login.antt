-- ===== src/Server/Accounts/Login.antt =====
-- From a registration by way of a login to the identity of a request.
use pulsepoll_hcl_guvi.Prelude.{
  ℕ, ◌+◌, ◌<◌, ◌≡◌, refl, ap, ◌∙◌, String, Bool, true, false, not, ◌||◌, Option, none, some, arith,
  if◌then◌else◌, subst,
}
use pulsepoll_hcl_guvi.Text.{truthy}
use pulsepoll_hcl_guvi.Auth.Requests.{bearer}
use pulsepoll_hcl_guvi.Server.Accounts.{
  User, UserRepository, AccountWorks, RegisterRequest, LoginRequest, Registration, registered,
  logged_in, Libraries, identity, claims_of, validate_registration, after_create, unless_found,
  register, login, get_profile, is_bare, authenticate, identify,
}
use pulsepoll_hcl_guvi.Server.Accounts.Tokens.{authenticate-bearer, trim_space-bare, claimed-signed}

-- the email as the server stores and looks it up
abbrev pub normalized : Libraries → String → String
normalized lib email = lib.to_lower (lib.trim_space email)

-- the user that a registration stores
abbrev pub stored_user : Libraries → RegisterRequest → String → User
stored_user lib r id = record {
  id = id;
  name = lib.trim_space r.name;
  email = normalized lib r.email;
  password_hash = lib.hash r.password;
}

email_of_validate :
    (lib : Libraries) (name email password : String)
    → validate_registration lib name email password ≡ true
    → truthy email ≡ true
unfolding validate_registration
email_of_validate lib name email password h = ground arith

module _ (lib : Libraries) {U : Type 0} ⦃repo : UserRepository U⦄ where
  -- A registration that succeeds has a valid email and password, and stores the user.
  record IsStored (us vs : U) (r : RegisterRequest) (id : String) : Type 0 where
    has_email : truthy (normalized lib r.email) ≡ true
    has_password : truthy r.password ≡ true
    create : repo.create us (stored_user lib r "") ≡ some (vs, id)

  abbrev Ends : U → RegisterRequest → U × Registration → Type 0
  Ends us r (vs, registered id) = IsStored us vs r id
  Ends us r (vs, Registration.invalid_input) = Unit
  Ends us r (vs, Registration.duplicate_email) = Unit
  Ends us r (vs, Registration.register_failed) = Unit

  if-Ends :
      (us : U) (r : RegisterRequest) (b : Bool) (x y : U × Registration)
      → (b ≡ true → Ends us r x)
      → (b ≡ false → Ends us r y)
      → Ends us r (if b then x else y)
  if-Ends us r true x y h g = h refl
  if-Ends us r false x y h g = g refl

  after_create-Ends :
      (us : U) (r : RegisterRequest) (o : Option (U × String))
      → truthy (normalized lib r.email) ≡ true
      → truthy r.password ≡ true
      → repo.create us (stored_user lib r "") ≡ o
      → Ends us r (after_create us o)
  after_create-Ends us r none e p h = tt
  after_create-Ends us r (some (vs, id)) e p h = record {
    has_email = e;
    has_password = p;
    create = h;
  }

  unless_found-Ends :
      (w : AccountWorks) (us : U) (r : RegisterRequest) (o : Option User)
      → truthy (normalized lib r.email) ≡ true
      → Ends us r
          (unless_found lib w us (lib.trim_space r.name) (normalized lib r.email) r.password o)
  unless_found-Ends w us r (some u) e = tt
  unless_found-Ends w us r none e =
      if-Ends us r (not w.hash || not (truthy r.password)) _ _ (λ k. tt)
        (λ k.
          if-Ends us r (not w.create) _ _ (λ l. tt)
            (λ l.
              after_create-Ends us r (repo.create us (stored_user lib r "")) e (ground arith) refl))

  register-Ends :
      (w : AccountWorks) (us : U) (r : RegisterRequest) → Ends us r (register lib w us r)
  unfolding register
  register-Ends w us r =
      if-Ends us r
        (not
          (validate_registration lib (lib.trim_space r.name) (normalized lib r.email) r.password))
        _ _ (λ k. tt)
        (λ k.
          if-Ends us r (not w.find) _ _ (λ l. tt)
            (λ l. unless_found-Ends w us r (repo.find_by_email us (normalized lib r.email)) (
              email_of_validate lib (lib.trim_space r.name) (normalized lib r.email) r.password
                (ground arith))))

  register-IsStored :
      (w : AccountWorks) (us vs : U) (r : RegisterRequest) (id : String)
      → register lib w us r ≡ (vs, registered id)
      → IsStored us vs r id
  register-IsStored w us vs r id h = subst (Ends us r) h (register-Ends w us r)

  -- After a registration that succeeds: with the database at work, a login with the same password and
  -- an email that is the same up to what `TrimSpace` and `ToLower` remove returns the token that is
  -- signed for the user, and until it expires `Authenticate` takes the header with which the client
  -- sends that token for the user's id and email, with which `GetProfile` finds the user.
  pub login_reaches_handlers :
      (expiry now later : ℕ) (w v : AccountWorks) (us vs : U) (r : RegisterRequest)
      (l : LoginRequest) (id token : String)
      → register lib w us r ≡ (vs, registered id)
      → v.find ≡ true
      → normalized lib l.email ≡ normalized lib r.email
      → l.password ≡ r.password
      → lib.sign (claims_of expiry now (stored_user lib r id)) ≡ some token
      → later < now + expiry
      → (login lib expiry v vs now l ≡ logged_in token (stored_user lib r id))
        × (authenticate lib later (bearer (some token)) ≡ identity id (normalized lib r.email))
        × (get_profile lib v vs id ≡ some (stored_user lib r id))
  unfolding login get_profile
  login_reaches_handlers expiry now later w v us vs r l id token h works same_email same_password
        signed valid =
      let s = register-IsStored w us vs r id h in
      let user = stored_user lib r id in
      let id_bare = repo.create_id us vs (stored_user lib r "") id s.create in
      let bare : is_bare id ≡ true = ground (arith, id_bare) in
      let full : truthy id ≡ true = ground (arith, id_bare) in
      (
        rw same_email (
            rw same_password (
              rw s.has_email (
                rw s.has_password (
                  rw works (
                    rw (repo.create_finds us vs (stored_user lib r "") id s.create)
                      (rw (lib.hash_checks r.password) (rw signed refl))))))),
        authenticate-bearer lib later token (lib.sign_bare (claims_of expiry now user) token signed)
            ∙ ap identify (claimed-signed lib expiry now later user token full signed valid),
        rw (trim_space-bare lib id bare)
            (rw full (rw works (repo.create_finds_id us vs (stored_user lib r "") id s.create))),
      )

  -- After a registration that succeeds, no registration with an email that is the same up to what
  -- `TrimSpace` and `ToLower` remove stores another user, whichever operations fail.
  pub registered_once :
      (w v : AccountWorks) (us vs : U) (r q : RegisterRequest) (id : String)
      → register lib w us r ≡ (vs, registered id)
      → normalized lib q.email ≡ normalized lib r.email
      → (register lib v vs q).0 ≡ vs
  unfolding register
  registered_once w v us vs r q id h same =
      let s = register-IsStored w us vs r id h in
      rw same (rw (repo.create_finds us vs (stored_user lib r "") id s.create) (ground arith))
