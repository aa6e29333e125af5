-- ===== src/Client/Headers.antt =====
-- The headers that `request` of frontend/src/api/client.js sends.
use pulsepoll_hcl_guvi.Prelude.{
  ◌≡◌, refl, ◌∙◌, String, ◌≢◌, ◌==◌, eq_iff, arith, Option, none, some, List, [], ◌∷◌,
  if◌then◌else◌,
}
use pulsepoll_hcl_guvi.Text.{◌⧺◌, truthy}
use pulsepoll_hcl_guvi.Client.{
  Env, Options, header, set_header, spread, default_headers, set_or, authorize, build,
}

pub header-set_header :
    (k j v : String) (hs : List (String × String))
    → header k (set_header j v hs) ≡ (if j == k then some v else header k hs)
unfolding set_header
header-set_header k j v [] = refl
header-set_header k j v ((i, w) ∷ hs) =
    ground (arith, eq_iff j k, eq_iff i j, eq_iff i k, header-set_header k j v hs)

-- the last of the caller's values for `k`, or else `d`
abbrev pub last_or : String → Option String → List (String × String) → Option String
last_or k d [] = d
last_or k d ((j, v) ∷ hs) = last_or k (if j == k then some v else d) hs

header-spread :
    (k : String) (base extra : List (String × String))
    → header k (spread base extra) ≡ last_or k (header k base) extra
unfolding spread
header-spread k base [] = refl
header-spread k base ((j, v) ∷ extra) =
    rw (header-spread k (set_header j v base) extra, header-set_header k j v base) refl

header-authorize_self :
    (token : Option String) (hs : List (String × String))
    → header "Authorization" (authorize token hs) ≡ (
        if truthy (set_or (header "Authorization" hs) "")
        then header "Authorization" hs
        else if truthy (set_or token "")
        then some ("Bearer " ⧺ set_or token "")
        else header "Authorization" hs)
unfolding authorize
header-authorize_self token hs =
    let bearer = "Bearer " ⧺ set_or token "" in
    ground (arith, header-set_header "Authorization" "Authorization" bearer hs)

header-authorize_ne :
    (k : String) (token : Option String) (hs : List (String × String))
    → k ≢ "Authorization"
    → header k (authorize token hs) ≡ header k hs
unfolding authorize
header-authorize_ne k token hs h =
    let bearer = "Bearer " ⧺ set_or token "" in
    ground (arith, eq_iff "Authorization" k, header-set_header k "Authorization" bearer hs)

-- In every request: the caller's Authorization header is sent as it is, if it is not empty;
-- otherwise a stored token that is not empty is sent as `Bearer`, and with no such token the
-- header stays as the caller left it.
pub build-authorization :
    (env : Env) (token : Option String) (endpoint : String) (o : Options)
    → let given = last_or "Authorization" none o.headers in
      header "Authorization" (build env token endpoint o).headers ≡ (
        if truthy (set_or given "")
        then given
        else if truthy (set_or token "")
        then some ("Bearer " ⧺ set_or token "")
        else given)
unfolding build
build-authorization env token endpoint o =
    rw (header-authorize_self, header-spread "Authorization" default_headers o.headers) refl

-- Every other header is the caller's last value for it, or else the default one.
pub build-header :
    (env : Env) (token : Option String) (endpoint : String) (o : Options) (k : String)
    → k ≢ "Authorization"
    → header k (build env token endpoint o).headers ≡ last_or k (header k default_headers) o.headers
unfolding build
build-header env token endpoint o k h =
    header-authorize_ne k token (spread default_headers o.headers) h
    ∙ header-spread k default_headers o.headers
