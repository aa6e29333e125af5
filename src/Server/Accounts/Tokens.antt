-- ===== src/Server/Accounts/Tokens.antt =====
-- A token through the Authorization header: what the client sends as `Bearer` reaches `Validate`.
use Prim.Native.String.{[], ◌∷◌}
use text.Mathlib.TextLemmas.{nil-append, cons-append}
use pulsepoll_hcl_guvi.Prelude.{
  ℕ, ◌+◌, ◌<◌, ◌≡◌, refl, ap, ◌∙◌, String, true, false, not, ◌&&◌, some, arith, code, eq_refl,
}
use pulsepoll_hcl_guvi.Text.{truthy, ◌⧺◌, is_space, is_blank, trim_start, trim_end, trim}
use pulsepoll_hcl_guvi.Text.Ascii.{is_ascii}
use pulsepoll_hcl_guvi.Text.Laws.{cons_not_empty}
use pulsepoll_hcl_guvi.Auth.Requests.{bearer}
use pulsepoll_hcl_guvi.Server.Accounts.{
  User, Libraries, is_bare, split_space, claims_of, validate, authenticate, claimed, identify,
}

is_bare-ascii : (t : String) → is_bare t ≡ true → is_ascii t ≡ true
is_bare-ascii [] h = refl
is_bare-ascii (c ∷ t) h = ground (arith, is_bare-ascii t)

is_bare-trim_start : (t : String) → is_bare t ≡ true → trim_start t ≡ t
unfolding trim_start
is_bare-trim_start [] h = refl
is_bare-trim_start (c ∷ t) h = ground arith

is_bare-trim_end : (t : String) → is_bare t ≡ true → trim_end t ≡ t
unfolding trim_end
is_bare-trim_end [] h = refl
is_bare-trim_end (c ∷ t) h =
    let first : is_space (code c) ≡ false = ground arith in
    rw first (ap (λ s. c ∷ s) (is_bare-trim_end t (ground arith)))

is_bare-trim : (t : String) → is_bare t ≡ true → trim t ≡ t
unfolding trim
is_bare-trim t h = ap trim_end (is_bare-trim_start t h) ∙ is_bare-trim_end t h

is_bare-is_blank : (t : String) → is_bare t ≡ true → truthy t ≡ true → is_blank t ≡ false
unfolding is_blank
is_bare-is_blank [] h k = cc
is_bare-is_blank (c ∷ t) h k = ground arith

pub trim_space-bare : (lib : Libraries) (t : String) → is_bare t ≡ true → lib.trim_space t ≡ t
trim_space-bare lib t h = lib.trims t (is_bare-ascii t h) ∙ is_bare-trim t h

header-ascii : (t : String) → is_bare t ≡ true → is_ascii ("Bearer " ⧺ t) ≡ true
header-ascii t h =
    rw
      (
        cons-append, cons-append, cons-append, cons-append, cons-append, cons-append, cons-append,
        nil-append,
      )
      (is_bare-ascii t h)

header-trim :
    (t : String) → is_bare t ≡ true → truthy t ≡ true → trim ("Bearer " ⧺ t) ≡ "Bearer " ⧺ t
unfolding trim trim_start trim_end is_space
header-trim t h k =
    rw
      (
        cons-append, cons-append, cons-append, cons-append, cons-append, cons-append, cons-append,
        nil-append,
      )
      (rw (is_bare-is_blank t h k) (rw (is_bare-trim_end t h) refl))

header-split : (t : String) → split_space ("Bearer " ⧺ t) ≡ some ("Bearer", t)
unfolding split_space
header-split t =
    rw
      (
        cons-append, cons-append, cons-append, cons-append, cons-append, cons-append, cons-append,
        nil-append,
      )
      refl

header-truthy : (t : String) → truthy ("Bearer " ⧺ t) ≡ true
header-truthy t = rw cons-append (ap not (cons_not_empty _ _))

pub authenticate-bearer :
    (lib : Libraries) (now : ℕ) (t : String)
    → (is_bare t && truthy t) ≡ true
    → authenticate lib now (bearer (some t)) ≡ identify (claimed (lib.parse now t))
unfolding authenticate validate
authenticate-bearer lib now t h =
    let bare : is_bare t ≡ true = ground arith in
    let full : truthy t ≡ true = ground arith in
    let same = trim_space-bare lib t bare in
    let header = lib.trims ("Bearer " ⧺ t) (header-ascii t bare) ∙ header-trim t bare full in
    rw full (
      rw header (
        rw (header-truthy t)
          (rw (header-split t) (rw (lib.folds "Bearer") (rw same (rw same (rw full refl)))))))

pub claimed-signed :
    (lib : Libraries) (expiry now later : ℕ) (u : User) (t : String)
    → truthy u.id ≡ true
    → lib.sign (claims_of expiry now u) ≡ some t
    → later < now + expiry
    → claimed (lib.parse later t) ≡ some (claims_of expiry now u)
claimed-signed lib expiry now later u t full signed valid =
    rw (lib.sign_parses (claims_of expiry now u) t later signed valid)
      (rw full (rw (eq_refl u.id) refl))
