-- ===== src/Text/Laws.antt =====
-- Laws of the string operations.
use Prim.Native.String.{[], ◌∷◌}
use text.Mathlib.TextLemmas.{nil-append, cons-append, cons-ne-nil}
use pulsepoll_hcl_guvi.Prelude.{
  ◌≡◌, refl, sym, ◌∙◌, ap, true, false, Char, String, ◌==◌, eq_iff, eq_refl, Bool-cases, inl, inr,
  arith, ◌≢◌,
}
use pulsepoll_hcl_guvi.Text.{◌⧺◌, truthy, ends_with}

pub cons_not_empty : (c : Char) (s : String) → ((c ∷ s) == "") ≡ false
cons_not_empty c s = elim (Bool-cases ((c ∷ s) == "")) [
  | inl e ↦ absurd (cons-ne-nil c s ((eq_iff (c ∷ s) "").0 e))
  | inr e ↦ e
]

pub ends_with_split : (s p : String) → ends_with s p ≡ true → (a : String) × (s ≡ a ⧺ p)
unfolding ends_with
ends_with_split [] p h = ([], (eq_iff [] p).0 h ∙ sym (nil-append p))
ends_with_split (c ∷ s) p h = elim (Bool-cases ((c ∷ s) == p)) [
  | inl e ↦ ([], (eq_iff (c ∷ s) p).0 e ∙ sym (nil-append p))
  | inr e ↦
      let (a, q) = ends_with_split s p (ground arith) in
      (c ∷ a, ap (c ∷◌) q ∙ sym (cons-append c a p))
]

pub ends_with-append : (a p : String) → ends_with (a ⧺ p) p ≡ true
unfolding ends_with
ends_with-append [] [] = refl
ends_with-append [] (c ∷ p) = rw (nil-append, eq_refl) refl
ends_with-append (c ∷ a) p = rw cons-append (ground (arith, ends_with-append a p))

pub truthy_of_ne : (s : String) → s ≢ "" → truthy s ≡ true
truthy_of_ne s h = elim (Bool-cases (s == "")) [
  | inl e ↦ absurd (h ((eq_iff s "").0 e))
  | inr e ↦ rw e refl
]

pub ne_of_truthy : (s : String) → truthy s ≡ true → s ≢ ""
ne_of_truthy s h = λ e. ground (arith, eq_iff s "")
