-- ===== src/Server/Hub/Outcomes.antt =====
-- Statements on what a step of the hub leads to, if it happens.
use pulsepoll_hcl_guvi.Prelude.{
  ℕ, ◌≡◌, refl, inl, inr, Bool, true, false, nat_eq, nat_eq_iff, if◌then◌else◌, Bool-cases,
}
use pulsepoll_hcl_guvi.Server.Hub.{Client, PollHub, Outcome, next, blocked, panic, update}

module _ {M : Type 0} where
  -- What holds of the hub after the step, if there is one.
  abbrev pub OnNext : (PollHub M → Type 0) → Outcome M → Type 0
  OnNext P (next h) = P h
  OnNext P blocked = Unit
  OnNext P panic = Unit

  pub if-OnNext :
      (P : PollHub M → Type 0) (b : Bool) (x y : Outcome M)
      → (b ≡ true → OnNext P x)
      → (b ≡ false → OnNext P y)
      → OnNext P (if b then x else y)
  if-OnNext P true x y h g = h refl
  if-OnNext P false x y h g = g refl

  -- what holds of a client after the change of one client, `c` or another
  pub update-at :
      (P : Client M → Type 0) (heap : ℕ → Client M) (c d : ℕ) (x : Client M)
      → (d ≡ c → P x)
      → P (heap c)
      → P (update heap d x c)
  update-at P heap c d x h t = elim (Bool-cases (nat_eq d c)) [
    | inl e ↦ rw e (h ((nat_eq_iff d c).0 e))
    | inr e ↦ rw e t
  ]
