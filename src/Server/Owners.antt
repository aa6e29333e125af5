-- ===== src/Server/Owners.antt =====
-- Who may change a poll, and what closing it does to the voting pages and to later votes.
use pulsepoll_hcl_guvi.Prelude.{
  ◌≡◌, ◌≢◌, refl, sym, ◌∙◌, ◌⊎◌, String, Bool, true, false, not, ◌&&◌, Option, none, some, List, [],
  ◌∷◌, All, arith, eq_iff, ◌==◌, if◌then◌else◌, Bool-cases, inl, inr,
}
use pulsepoll_hcl_guvi.Text.{truthy}
use pulsepoll_hcl_guvi.Results.{Poll}
use pulsepoll_hcl_guvi.Server.Polls.{
  Stored, PollRepository, Outcome, turn, set_status, remove, delete_poll,
}
use pulsepoll_hcl_guvi.Server.Updating.{
  UpdateRequest, validate_and_update, write, edit_found, edit_poll,
}

-- A request to change the poll `id` in the name of `creator`; `writes` tells whether the
-- repository's write succeeds.
pub data Command : Type 0 where
  updating : (writes : Bool) (creator id : String) → UpdateRequest → Command
  setting : (writes : Bool) (creator id status : String) → Command
  removing : (writes : Bool) (creator id : String) → Command

abbrev pub sender : Command → String
sender (updating w c i r) = c
sender (setting w c i v) = c
sender (removing w c i) = c

unequal : (x y : String) → y ≢ x → (x == y) ≡ false
unequal x y ne = elim (Bool-cases (x == y)) [
  | inl h ↦ absurd (ne (sym ((eq_iff x y).0 h)))
  | inr h ↦ h
]

module _ {P : Type 0} ⦃repo : PollRepository P⦄ (trim_space to_lower : String → String) where
  unfoldable pub perform : P → Command → P
  perform p (updating w c i r) = (edit_poll trim_space to_lower w c i r p).store
  perform p (setting w c i v) = (set_status w c i v p).store
  perform p (removing w c i) = (delete_poll w c i p).store

  unfoldable pub perform_all : P → List Command → P
  unfolding perform
  perform_all p [] = p
  perform_all p (c ∷ cs) = perform_all (perform p c) cs

  -- The poll `id`, which `s` is, is as it was.
  Keeps : P → String → Stored → Outcome P → Type 0
  Keeps p id s out = repo.find_by_id out.store id ≡ some s

  if-Keeps :
      (p : P) (id : String) (s : Stored) (b : Bool) (x y : Outcome P)
      → Keeps p id s x
      → Keeps p id s y
      → Keeps p id s (if b then x else y)
  if-Keeps p id s true x y h g = h
  if-Keeps p id s false x y h g = g

  module _ (p : P) (id : String) (s : Stored) (c : String) (here : repo.find_by_id p id ≡ some s)
      (other : (s.creator_id == c) ≡ false) where
    same_stored : (t : Stored) → some t ≡ some s → (t.creator_id == c) ≡ false
    same_stored t e = let same : t ≡ s = cc in rw same other

    -- A poll that is found is another one, or one that the sender does not own.
    differs :
        (i : String) (t : Stored)
        → repo.find_by_id p i ≡ some t
        → ((t.creator_id == c) ≡ false) ⊎ (repo.is_same_id i id ≡ false)
    differs i t e = elim (Bool-cases (repo.is_same_id i id)) [
      | inl h ↦ inl (same_stored t (sym e ∙ repo.same_finds p i id h ∙ here))
      | inr h ↦ inr h
    ]

    write-Keeps :
        (w : Bool) (i : String) (o : Option Poll)
        → repo.is_same_id i id ≡ false
        → Keeps p id s (write p w i o)
    unfolding Keeps
    write-Keeps w i none h = here
    write-Keeps w i (some q) h = ground (arith, repo.update_finds p i q.question q.options id)

    edit-Keeps :
        (w : Bool) (i : String) (r : UpdateRequest) (o : Option Stored)
        → repo.find_by_id p i ≡ o
        → Keeps p id s (edit_found trim_space to_lower p w c i r o)
    unfolding Keeps
    edit-Keeps w i r none e = here
    edit-Keeps w i r (some t) e = elim (differs i t e) [
      | inl h ↦ rw h here
      | inr h ↦ if-Keeps p id s (not (t.creator_id == c)) _ _ here (
          if-Keeps p id s (t.poll.status == "closed") _ _ here
            (write-Keeps w i (validate_and_update trim_space to_lower t.poll r) h))
    ]

    turn-Keeps :
        (w : Bool) (i v : String) (o : Option Stored)
        → repo.find_by_id p i ≡ o
        → Keeps p id s (turn p w c i v o)
    unfolding Keeps
    turn-Keeps w i v none e = here
    turn-Keeps w i v (some t) e = elim (differs i t e) [
      | inl h ↦ rw h here
      | inr h ↦ ground (arith, repo.update_status_finds p i v id)
    ]

    remove-Keeps :
        (w : Bool) (i : String) (o : Option Stored)
        → repo.find_by_id p i ≡ o
        → Keeps p id s (remove p w c i o)
    unfolding Keeps
    remove-Keeps w i none e = here
    remove-Keeps w i (some t) e = elim (differs i t e) [
      | inl h ↦ rw h here
      | inr h ↦ ground (arith, repo.soft_delete_finds p i id)
    ]

  perform_foreign :
      (p : P) (id : String) (s : Stored) (c : Command)
      → repo.find_by_id p id ≡ some s
      → sender c ≢ s.creator_id
      → repo.find_by_id (perform p c) id ≡ some s
  unfolding perform edit_poll set_status delete_poll Keeps
  perform_foreign p id s (updating w c i r) here ne = if-Keeps p id s (not (truthy c)) _ _ here (
      if-Keeps p id s (not (truthy i)) _ _ here
        (edit-Keeps p id s c here (unequal s.creator_id c ne) w i r (repo.find_by_id p i) refl))
  perform_foreign p id s (setting w c i v) here ne = if-Keeps p id s (not (truthy c)) _ _ here (
      if-Keeps p id s (not (truthy i)) _ _ here (
        if-Keeps p id s (not (v == "active") && not (v == "closed")) _ _ here
          (turn-Keeps p id s c here (unequal s.creator_id c ne) w i v (repo.find_by_id p i) refl)))
  perform_foreign p id s (removing w c i) here ne = if-Keeps p id s (not (truthy c)) _ _ here (
      if-Keeps p id s (not (truthy i)) _ _ here
        (remove-Keeps p id s c here (unequal s.creator_id c ne) w i (repo.find_by_id p i) refl))

  -- Whatever requests to update, close, reopen or delete polls arrive, however they spell the IDs, and
  -- whichever writes succeed: a poll that is found stays as it is, unless a request is sent in the name
  -- of its creator.
  pub only_owner :
      (p : P) (id : String) (s : Stored) (cs : List Command)
      → repo.find_by_id p id ≡ some s
      → All (λ c. sender c ≢ s.creator_id) cs
      → repo.find_by_id (perform_all p cs) id ≡ some s
  unfolding perform_all
  only_owner p id s [] here h = here
  only_owner p id s (c ∷ cs) here (ne, nes) =
      only_owner (perform p c) id s cs (perform_foreign p id s c here ne) nes
