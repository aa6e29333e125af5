-- ===== src/App/Tests.antt =====
-- The theorem on the guarded routes with a router that compares whole paths.
use pulsepoll_hcl_guvi.Prelude.{
  ◌≡◌, refl, String, true, false, Option, none, some, List, [], ◌∷◌, Memᴰ, ◌==◌, arith,
  if◌then◌else◌, inl, inr, Bool-cases,
}
use pulsepoll_hcl_guvi.Auth.{Session, is_authenticated}
use pulsepoll_hcl_guvi.App.{
  home, dashboard, Route, routes, page, redirect, verifying, protect, show, app,
}
use pulsepoll_hcl_guvi.App.Guard.{creator_pages_guarded}

abbrev pub find_exact : List Route → String → Option Route
find_exact [] l = none
find_exact (r ∷ rs) l = if r.path == l then some r else find_exact rs l

find_exact-Memᴰ : (rs : List Route) (l : String) (r : Route) → find_exact rs l ≡ some r → Memᴰ r rs
find_exact-Memᴰ [] l r h = cc
find_exact-Memᴰ (q ∷ rs) l r h = elim (Bool-cases (q.path == l)) [
  | inl e ↦ Memᴰ.head (ground arith)
  | inr e ↦ Memᴰ.tail (find_exact-Memᴰ rs l r (ground arith))
]

abbrev pub ann_session : Session
ann_session = record {
  user = some (record { id = "1"; name = "Ann"; email = "ann@example.org" });
  token = some "t1";
  loading = false;
  stored = some "t1";
  mounted = true;
  checking = none;
}

abbrev nobody : Session
nobody = record ann_session { user = none; token = none; stored = none }

app_test :
    (app find_exact ann_session "/dashboard" ≡ some (page dashboard))
    × (app find_exact nobody "/dashboard" ≡ some (redirect "/login" (some "/dashboard")))
    × (app find_exact nobody "/" ≡ some (page home))
    × (app find_exact (record nobody { loading = true }) "/dashboard" ≡ some verifying)
unfolding app routes show protect is_authenticated
app_test = (refl, refl, refl, refl)

creator_pages_guarded_example :
    (is_authenticated ann_session ≡ true) × (ann_session.loading ≡ false)
unfolding app routes show protect is_authenticated
creator_pages_guarded_example =
    creator_pages_guarded find_exact ann_session "/dashboard" dashboard find_exact-Memᴰ tt refl
