-- ===== src/Auth/Race.antt =====
-- A login that overtakes the check of an older token.
use pulsepoll_hcl_guvi.Prelude.{String, true, false, ◌≡◌, none, some, [], ◌∷◌, arith}
use pulsepoll_hcl_guvi.Auth.{
  User, Session, Failure, LoginData, ok, error, logged_in, is_authenticated, checked, login, step,
  run,
}

-- If, with the provider mounted, a login succeeds while the check of an older token is under way, and
-- that check then fails,
-- the new token is removed from localStorage and the new user is signed out.
pub login_overtakes_check :
    (s : Session) (old : String) (d : LoginData) (u : User) (e : Failure)
    → s.mounted ≡ true
    → s.checking ≡ some old
    → (logged_in (ok d) s).1 ≡ ok u
    → let t = run s (login (ok d) ∷ checked (error e) ∷ []) in
      (is_authenticated (step s (login (ok d))) ≡ true)
      × (t.stored ≡ none)
      × (is_authenticated t ≡ false)
unfolding run step is_authenticated
login_overtakes_check s old d u e m c h = ground arith
