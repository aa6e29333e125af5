-- ===== src/Auth/Storage.antt =====
-- The session of frontend/src/context/AuthContext.jsx and the token in localStorage.
use pulsepoll_hcl_guvi.Prelude.{
  String, true, false, ◌≡◌, refl, ◌↔◌, Option, none, some, List, [], ◌∷◌, arith, All,
}
use pulsepoll_hcl_guvi.Api
use pulsepoll_hcl_guvi.Auth.{
  User, Session, LoginData, Reply, ok, error, has_token, start, check_auth, logged_in, logout,
  is_authenticated, Event, checked, login, sign_out, leave, step, run,
}

-- No answer to `getMe` is awaited, and the session's token is the stored one.
pub record IsSettled (s : Session) : Type 0 where
  pub quiet : s.checking ≡ none
  pub same_token : s.token ≡ s.stored

step-IsSettled : (s : Session) (e : Event) → IsSettled s → IsSettled (step s e)
unfolding step
step-IsSettled s (checked r) v = ground arith
step-IsSettled s (login (ok d)) v = ground arith
step-IsSettled s (login (error e)) v = v
step-IsSettled s sign_out v = ground arith
step-IsSettled s leave v = ground arith

-- From a session with no check under way, whose token is the stored one, the token of the session is the one that `request`
-- reads from localStorage, through every login, failed login and logout.
pub run-IsSettled : (s : Session) (es : List Event) → IsSettled s → IsSettled (run s es)
unfolding run
run-IsSettled s [] v = v
run-IsSettled s (e ∷ es) v = run-IsSettled (step s e) es (step-IsSettled s e v)

-- The events of `es` sign nobody in.
abbrev pub NoLogin : Event → Type 0
NoLogin (login (ok _)) = ⊥
NoLogin _ = Unit

abbrev IsSignedOut : Session → Type 0
IsSignedOut s = (s.user ≡ none) × (s.stored ≡ none)

step-IsSignedOut :
    (s : Session) (e : Event) → IsSettled s → IsSignedOut s → NoLogin e → IsSignedOut (step s e)
unfolding step
step-IsSignedOut s (checked r) v h n = ground (arith, v.quiet)
step-IsSignedOut s (login (ok d)) v h n = absurd n
step-IsSignedOut s (login (error e)) v h n = h
step-IsSignedOut s sign_out v h n = (refl, refl)
step-IsSignedOut s leave v h n = h

run-IsSignedOut :
    (s : Session) (es : List Event)
    → IsSettled s
    → IsSignedOut s
    → All NoLogin es
    → IsSignedOut (run s es)
unfolding run
run-IsSignedOut s [] v h _ = h
run-IsSignedOut s (e ∷ es) v h (n, ns) =
    run-IsSignedOut (step s e) es (step-IsSettled s e v) (step-IsSignedOut s e v h n) ns

-- After a logout with no check under way nobody is signed in, and nothing is stored, until a login
-- succeeds.
pub logout_lasts :
    (s : Session) (es : List Event)
    → s.checking ≡ none
    → All NoLogin es
    → (is_authenticated (run (logout s) es) ≡ false) × ((run (logout s) es).stored ≡ none)
unfolding is_authenticated
logout_lasts s es q ns =
    let v : IsSettled (logout s) = unfold logout in record { quiet = q; same_token = refl } in
    let h : IsSignedOut (logout s) = unfold logout in (refl, refl) in
    ground (arith, run-IsSignedOut (logout s) es v h ns)

-- The check of a stored token: it asks the server exactly if a token is stored; the page stops
-- loading whatever the answer is; the visitor is then signed in exactly if the answer names a
-- user; and an error forgets the stored token.
pub check_lem :
    (stored : Option String) (reply : Reply (Option User))
    → let (s, call) = check_auth (start stored) in
      let t = step s (checked reply) in
      ((call ≡ some Api.get_me) ↔ (has_token stored ≡ true))
      × (t.loading ≡ false)
      × ((is_authenticated t ≡ true)
          ↔ ((has_token stored ≡ true) × ((u : User) × (reply ≡ ok (some u)))))
unfolding check_auth start step is_authenticated
check_lem none reply = ground arith
check_lem (some t) (ok (some u)) =
    (ground arith, ground arith, (λ a. (ground arith, (u, refl)), λ a. ground arith))
check_lem (some t) (ok none) = ground arith
check_lem (some t) (error e) = ground arith

-- A login survives a reload of the page: the session that starts from what is stored then, and
-- whose check names the same user, has the same user and the same token.
pub login_reload :
    (s : Session) (d : LoginData) (u : User)
    → (logged_in (ok d) s).1 ≡ ok u
    → let after = (logged_in (ok d) s).0 in
      let again = step (check_auth (start after.stored)).0 (checked (ok (some u))) in
      (again.user ≡ after.user) × (again.token ≡ after.token) × (is_authenticated again ≡ true)
unfolding check_auth start step is_authenticated logged_in
login_reload s d u h = ground arith
