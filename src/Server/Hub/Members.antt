-- ===== src/Server/Hub/Members.antt =====
-- The phases of a client, and the map of the clients of a hub.
use pulsepoll_hcl_guvi.Prelude.{
  ℕ, ◌≡◌, refl, Bool, true, false, not, ◌&&◌, ◌||◌, inl, inr, Bool-cases, List, [], ◌∷◌, arith,
  nat_eq, nat_eq_iff,
}
use pulsepoll_hcl_guvi.Server.Hub.{
  Phase, is_absent, is_created, is_registered, Client, mem, delete, insert, is_empty, has_room,
  keeping_up,
}

-- before `hub.Register`
abbrev pub is_early : Phase → Bool
is_early p = is_absent p || is_created p

pub absent_early : (p : Phase) → is_absent p ≡ true → is_early p ≡ true
absent_early Phase.absent h = refl
absent_early Phase.created h = cc
absent_early Phase.registered h = cc
absent_early Phase.launched h = cc

pub created_early : (p : Phase) → is_created p ≡ true → is_early p ≡ true
created_early Phase.absent h = cc
created_early Phase.created h = refl
created_early Phase.registered h = cc
created_early Phase.launched h = cc

pub registered_late : (p : Phase) → is_registered p ≡ true → is_early p ≡ false
registered_late Phase.absent h = cc
registered_late Phase.created h = cc
registered_late Phase.registered h = refl
registered_late Phase.launched h = cc

pub mem-delete : (c d : ℕ) (cs : List ℕ) → mem d (delete c cs) ≡ (mem d cs && not (nat_eq c d))
mem-delete c d [] = refl
mem-delete c d (e ∷ cs) =
    ground (arith, nat_eq_iff e c, nat_eq_iff c d, nat_eq_iff e d, mem-delete c d cs)

pub mem-is_empty : (c : ℕ) (cs : List ℕ) → is_empty cs ≡ true → mem c cs ≡ false
mem-is_empty c [] h = refl
mem-is_empty c (d ∷ cs) h = cc

pub mem-insert : (c : ℕ) (cs : List ℕ) → mem c (insert c cs) ≡ true
mem-insert c cs = ground (arith, nat_eq_iff c c)

pub mem-insert_other : (c d : ℕ) (cs : List ℕ) → nat_eq c d ≡ false → mem d (insert c cs) ≡ mem d cs
mem-insert_other c d cs h = ground arith

module _ {M : Type 0} where
  pub mem-keeping_up :
      (heap : ℕ → Client M) (d : ℕ) (cs : List ℕ)
      → mem d (keeping_up heap cs) ≡ (mem d cs && has_room (heap d))
  mem-keeping_up heap d [] = refl
  mem-keeping_up heap d (c ∷ cs) = elim (Bool-cases (nat_eq c d)) [
    | inl e ↦
        rw e (rw ((nat_eq_iff c d).0 e) (ground (arith, mem-keeping_up heap d cs, nat_eq_iff d d)))
    | inr e ↦ ground (arith, mem-keeping_up heap d cs)
  ]
