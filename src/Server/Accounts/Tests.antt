-- ===== src/Server/Accounts/Tests.antt =====
-- The theorems on accounts with a list of users, and libraries that sign one user's claims.
use pulsepoll_hcl_guvi.Prelude.{
  ℕ, ◌<◌, ◌≡◌, refl, sym, ap, subst, String, Bool, true, false, ◌&&◌, Option, none, some, List, [],
  ◌∷◌, arith, nat_eq, nat_eq_iff, ltb, if◌then◌else◌, ◌==◌, eq_refl, eq_iff,
}
use pulsepoll_hcl_guvi.Text.{trim_end, trim_start, is_blank, is_space, truthy, includes, trim}
use pulsepoll_hcl_guvi.Auth.Requests.{bearer}
use pulsepoll_hcl_guvi.Server.Accounts.{
  User, UserRepository, AccountWorks, RegisterRequest, registered, logged_in, Libraries, Claims,
  is_bare, get_profile, identity, register, login, authenticate,
}
use pulsepoll_hcl_guvi.Server.Accounts.Login.{login_reaches_handlers}

abbrev find : List User → String → Option User
find [] email = none
find (u ∷ us) email = if u.email == email then some u else find us email

abbrev find_id : List User → String → Option User
find_id [] id = none
find_id (u ∷ us) id = if u.id == id then some u else find_id us id

abbrev add : List User → User → Option User → Option (List User × String)
add us u (some _) = none
add us u none = some (record u { id = "u1" } ∷ us, "u1")

add-finds :
    (us vs : List User) (u : User) (id : String) (o : Option User)
    → add us u o ≡ some (vs, id)
    → (find vs u.email ≡ some (record u { id = id }))
      × (find_id vs id ≡ some (record u { id = id }))
      × ((is_bare id && truthy id) ≡ true)
unfolding is_space
add-finds us vs u id (some _) h = cc
add-finds us vs u id none h =
    subst
      (λ (x : Option (List User × String)). elim x [
        | none ↦ Unit
        | some p ↦
            (find p.0 u.email ≡ some (record u { id = p.1 }))
            × (find_id p.0 p.1 ≡ some (record u { id = p.1 }))
            × ((is_bare p.1 && truthy p.1) ≡ true)
      ])
      h (rw (eq_refl u.email) refl, refl, refl)

instance unfoldable users : UserRepository (List User)
users = record {
  find_by_email = find;
  find_by_id = find_id;
  create = λ us u. add us u (find us u.email);
  create_finds = λ us vs u id h. (add-finds us vs u id (find us u.email) h).0;
  create_finds_id = λ us vs u id h. (add-finds us vs u id (find us u.email) h).1;
  create_id = λ us vs u id h. (add-finds us vs u id (find us u.email) h).2;
}

abbrev ann : Claims
ann = record {
  user_id = "u1";
  email = "ann@x.io";
  subject = "u1";
  issuer = "pulsepoll";
  expires_at = 3605;
}

abbrev is_ann : Claims → Bool
is_ann c =
    (c.user_id == "u1")
    && (c.email == "ann@x.io")
    && (c.subject == "u1")
    && (c.issuer == "pulsepoll")
    && nat_eq c.expires_at 3605

is_ann-eq : (c : Claims) → is_ann c ≡ true → c ≡ ann
is_ann-eq c h =
    let user : c.user_id ≡ "u1" = (eq_iff c.user_id "u1").0 (ground arith) in
    let email : c.email ≡ "ann@x.io" = (eq_iff c.email "ann@x.io").0 (ground arith) in
    let subject : c.subject ≡ "u1" = (eq_iff c.subject "u1").0 (ground arith) in
    let issuer : c.issuer ≡ "pulsepoll" = (eq_iff c.issuer "pulsepoll").0 (ground arith) in
    let expiry : c.expires_at ≡ 3605 = (nat_eq_iff c.expires_at 3605).0 (ground arith) in
    λ i. record {
      user_id = user i;
      email = email i;
      subject = subject i;
      issuer = issuer i;
      expires_at = expiry i;
    }

abbrev sign_ann : Claims → Option String
sign_ann c = if is_ann c then some "a.b.c" else none

if-token :
    (k : Bool) (t : String)
    → (if k then some "a.b.c" else none) ≡ some t
    → (t ≡ "a.b.c") × (k ≡ true)
if-token true t h = (cc, refl)
if-token false t h = cc

sign_ann-token : (c : Claims) (t : String) → sign_ann c ≡ some t → (t ≡ "a.b.c") × (c ≡ ann)
sign_ann-token c t h = let (e, k) = if-token (is_ann c) t h in (e, is_ann-eq c k)

abbrev parse_ann : ℕ → String → Option Claims
parse_ann now t = if (t == "a.b.c") && ltb now 3605 then some ann else none

sign_ann-parse :
    (c : Claims) (t : String) (now : ℕ)
    → sign_ann c ≡ some t
    → now < c.expires_at
    → parse_ann now t ≡ some c
sign_ann-parse c t now h l =
    let (token, claims) = sign_ann-token c t h in
    let early : ltb now 3605 ≡ true = ground (arith, ap (λ (x : Claims). x.expires_at) claims) in
    rw token (rw early (ap some (sym claims)))

sign_ann-bare : (c : Claims) (t : String) → sign_ann c ≡ some t → (is_bare t && truthy t) ≡ true
unfolding is_space
sign_ann-bare c t h = rw (sign_ann-token c t h).0 refl

abbrev lib : Libraries
lib = record {
  trim_space = trim;
  to_lower = λ s. s;
  equal_fold = λ s t. s == t;
  parse_address = λ s. includes s "@";
  hash = λ s. s;
  check = λ s t. s == t;
  sign = sign_ann;
  parse = parse_ann;
  trims = λ s h. refl;
  folds = eq_refl;
  hash_checks = eq_refl;
  sign_bare = sign_ann-bare;
  sign_parses = sign_ann-parse;
}

abbrev all_well : AccountWorks
all_well = record { find = true; create = true; hash = true }

abbrev request : RegisterRequest
request = record { name = "Ann"; email = "ann@x.io"; password = "password" }

abbrev account : User
account = record { id = "u1"; name = "Ann"; email = "ann@x.io"; password_hash = "password" }

ann_registers : register lib all_well [] request ≡ (account ∷ [], registered "u1")
unfolding register users trim trim_end trim_start is_space includes
ann_registers = refl

login_reaches_handlers_example :
    (login lib 3600 all_well
        (account ∷ [])
        5
        (record { email = " ann@x.io "; password = "password" })
      ≡ logged_in "a.b.c" account)
    × (authenticate lib 3000 (bearer (some "a.b.c")) ≡ identity "u1" "ann@x.io")
    × (get_profile lib all_well (account ∷ []) "u1" ≡ some account)
unfolding trim trim_end trim_start is_space is_blank
login_reaches_handlers_example =
    login_reaches_handlers lib 3600 5 3000 all_well all_well [] (account ∷ []) request
      (record { email = " ann@x.io "; password = "password" }) "u1" "a.b.c" ann_registers refl refl
      refl refl (omega arith)
