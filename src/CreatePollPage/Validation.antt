-- ===== src/CreatePollPage/Validation.antt =====
-- Which forms are sent, and as what.
use mathlib.Core.List.{append_assoc, append-nil}
use pulsepoll_hcl_guvi.Prelude.{
  ℕ, ◌+◌, ◌≤◌, ◌<◌, ◌≡◌, refl, ◌∙◌, ◌≢◌, ◌↔◌, ◌⊎◌, String, true, false, Option, some, List, [], ◌∷◌,
  ◌++◌, map, length, All, arith, eq_iff,
}
use pulsepoll_hcl_guvi.Text
use pulsepoll_hcl_guvi.Text.{truthy, trim}
use pulsepoll_hcl_guvi.CreatePollPage.{Form, has, valid, check_options}

module _ (lower : String → String) where
  -- The options from here on are good, given the lower-case texts seen before.
  abbrev pub IsGood : List String → List String → Type 0
  IsGood seen [] = Unit
  IsGood seen (o ∷ os) =
      (truthy (trim o) ≡ true)
      × (Text.length (trim o) ≤ 150)
      × (has (lower (trim o)) seen ≡ false)
      × IsGood (lower (trim o) ∷ seen) os

  good_split :
      (i : ℕ) (seen cleaned os : List String) (o : String) (cs : List String)
      → check_options lower i seen cleaned (o ∷ os) ≡ valid cs
      → (truthy (trim o) ≡ true)
        × (Text.length (trim o) ≤ 150)
        × (has (lower (trim o)) seen ≡ false)
        × (check_options lower (i + 1) (lower (trim o) ∷ seen) (cleaned ++ trim o ∷ []) os
            ≡ valid cs)
  unfolding check_options
  good_split i seen cleaned os o cs h = ground arith

  pub check_sound :
      (i : ℕ) (seen cleaned os : List String) (cs : List String)
      → check_options lower i seen cleaned os ≡ valid cs
      → IsGood seen os × (cs ≡ cleaned ++ map trim os)
  unfolding check_options
  check_sound i seen cleaned [] cs h = (tt, rw append-nil (cc))
  check_sound i seen cleaned (o ∷ os) cs h =
      let (named, short, new, rest) = good_split i seen cleaned os o cs h in
      let (good, same) =
        check_sound (i + 1) (lower (trim o) ∷ seen) (cleaned ++ trim o ∷ []) os cs rest in
      ((named, short, new, good), same ∙ append_assoc cleaned (trim o ∷ []) (map trim os))

  pub check_complete :
      (i : ℕ) (seen cleaned os : List String)
      → IsGood seen os
      → check_options lower i seen cleaned os ≡ valid (cleaned ++ map trim os)
  unfolding check_options
  check_complete i seen cleaned [] g = rw append-nil refl
  check_complete i seen cleaned (o ∷ os) (named, short, new, good) =
      let rest = check_complete (i + 1) (lower (trim o) ∷ seen) (cleaned ++ trim o ∷ []) os good in
      ground (arith, rest, append_assoc cleaned (trim o ∷ []) (map trim os))

  -- Not blank, and at most 150 code units, once trimmed.
  abbrev pub IsNamed : String → Type 0
  IsNamed o = (truthy (trim o) ≡ true) × (Text.length (trim o) ≤ 150)

  -- No two options differ only in case and surrounding space.
  abbrev pub AreDistinct : List String → Type 0
  AreDistinct [] = Unit
  AreDistinct (o ∷ os) = All (λ q. lower (trim o) ≢ lower (trim q)) os × AreDistinct os

  unseen_split :
      (o : String) (seen os : List String)
      → All (λ q. has (lower (trim q)) (lower (trim o) ∷ seen) ≡ false) os
      → All (λ q. lower (trim o) ≢ lower (trim q)) os
        × All (λ q. has (lower (trim q)) seen ≡ false) os
  unseen_split o seen [] h = (tt, tt)
  unseen_split o seen (q ∷ os) (h, hs) =
      let (differs, fresh) = unseen_split o seen os hs in
      (
        (ground (arith, eq_iff (lower (trim o)) (lower (trim q))), differs),
        (ground (arith, eq_iff (lower (trim o)) (lower (trim q))), fresh),
      )

  unseen_join :
      (o : String) (seen os : List String)
      → All (λ q. lower (trim o) ≢ lower (trim q)) os
      → All (λ q. has (lower (trim q)) seen ≡ false) os
      → All (λ q. has (lower (trim q)) (lower (trim o) ∷ seen) ≡ false) os
  unseen_join o seen [] d f = tt
  unseen_join o seen (q ∷ os) (d, ds) (f, fs) =
      (ground (arith, eq_iff (lower (trim o)) (lower (trim q))), unseen_join o seen os ds fs)

  pub IsGood-iff :
      (seen os : List String)
      → IsGood seen os
        ↔ (All IsNamed os × All (λ q. has (lower (trim q)) seen ≡ false) os × AreDistinct os)
  IsGood-iff seen [] = (λ _. (tt, tt, tt), λ _. tt)
  IsGood-iff seen (o ∷ os) =
      let (to, from) = IsGood-iff (lower (trim o) ∷ seen) os in
      (
        λ g.
            let (named, fresh, distinct) = to g.3 in
            let (differs, unseen) = unseen_split o seen os fresh in
            (((g.0, g.1), named), (g.2, unseen), (differs, distinct)),
        λ a. (a.0.0.0, a.0.0.1, a.1.0, from (a.0.1, unseen_join o seen os a.2.0 a.1.1, a.2.1)),
      )

  pub unseen_nil : (os : List String) → All (λ q. has (lower (trim q)) [] ≡ false) os
  unseen_nil [] = tt
  unseen_nil (o ∷ os) = (refl, unseen_nil os)

  -- What a form must hold to be sent.
  pub record IsValid (parse : String → Option ℕ) (now : ℕ) (f : Form) : Type 0 where
    pub question : (3 ≤ Text.length (trim f.question)) × (Text.length (trim f.question) ≤ 255)
    pub number : (2 ≤ length f.options) × (length f.options ≤ 10)
    pub named : All IsNamed f.options
    pub distinct : AreDistinct f.options
    pub deadline :
        (truthy f.expires_at ≡ false) ⊎ ((t : ℕ) × (parse f.expires_at ≡ some t) × (now < t))
