-- ===== src/Server/Hub/Manager.antt =====
-- backend/internal/websocket/manager.go: the entry of a poll in the map of `HubManager`, and the hubs
-- made for the poll. A hub is named by a number, as a pointer; its `done` is all that the manager
-- reads. The lock makes each operation one step, and `Stop` closes `done` before it calls `RemoveHub`.
use pulsepoll_hcl_guvi.Prelude.{
  ℕ, ◌+◌, ◌<◌, ◌≤◌, ltb, inl, inr, Bool-cases, ◌≡◌, refl, Bool, true, false, Option, none, some,
  List, [], ◌∷◌, arith, nat_eq, nat_eq_iff, if◌then◌else◌,
}

-- `made` is the number of the hubs made so far.
pub record HubManager : Type 0 where
  pub hub : Option ℕ
  pub is_done : ℕ → Bool
  pub made : ℕ

-- `NewHubManager`
abbrev pub new_hub_manager : HubManager
new_hub_manager = record { hub = none; is_done = λ _. false; made = 0 }

-- `GetOrCreateHub` without an open hub; `NewPollHub` may fail to subscribe.
abbrev make_hub : Bool → HubManager → HubManager × Option ℕ
make_hub true m = (record m { hub = some m.made; made = m.made + 1 }, some m.made)
make_hub false m = (m, none)

abbrev open_or_make : Bool → HubManager → Option ℕ → HubManager × Option ℕ
open_or_make subscribes m none = make_hub subscribes m
open_or_make subscribes m (some i) = if m.is_done i then make_hub subscribes m else (m, some i)

unfoldable pub get_or_create_hub : Bool → HubManager → HubManager × Option ℕ
get_or_create_hub subscribes m = open_or_make subscribes m m.hub

-- `close(h.done)`, the first part of `Stop`
abbrev pub stop_hub : ℕ → HubManager → HubManager
stop_hub i m = record m { is_done = λ j. if nat_eq i j then true else m.is_done j }

abbrev without : ℕ → Option ℕ → Option ℕ
without i none = none
without i (some j) = if nat_eq j i then none else some j

-- `RemoveHub`
unfoldable pub remove_hub : ℕ → HubManager → HubManager
remove_hub i m = record m { hub = without i m.hub }

abbrev stopped : Option ℕ → HubManager → HubManager
stopped none m = m
stopped (some i) m = stop_hub i m

-- `Shutdown`: the map is emptied, and then the hubs that were in it are stopped.
unfoldable pub shutdown : HubManager → HubManager
shutdown m = stopped m.hub (record m { hub = none })

-- The operations while the server runs; only a hub that was made is stopped, and it is removed only
-- once it is done, as `Stop` does it.
pub data Operation : Type 0 where
  get_hub : (subscribes : Bool) → Operation
  stop remove : ℕ → Operation

unfoldable pub operate : Operation → HubManager → HubManager
unfolding get_or_create_hub remove_hub
operate (get_hub subscribes) m = (get_or_create_hub subscribes m).0
operate (stop i) m = if ltb i m.made then stop_hub i m else m
operate (remove i) m = if m.is_done i then remove_hub i m else m

unfoldable pub manage : List Operation → HubManager → HubManager
unfolding operate
manage [] m = m
manage (o ∷ os) m = manage os (operate o m)

-- The hub in the map is one that was made, each open hub is in the map, and no other hub is done.
record IsCurrent (m : HubManager) : Type 0 where
  was_made : (i : ℕ) → m.hub ≡ some i → i < m.made
  current : (i : ℕ) → i < m.made → m.is_done i ≡ false → m.hub ≡ some i
  unmade : (i : ℕ) → m.made ≤ i → m.is_done i ≡ false

new_hub_manager-IsCurrent : IsCurrent new_hub_manager
new_hub_manager-IsCurrent = record {
  was_made = λ i e. cc;
  current = λ i l d. absurd (omega (arith, l));
  unmade = λ i l. refl;
}

make_hub-IsCurrent :
    (k : Bool) (m : HubManager)
    → ((i : ℕ) → i < m.made → m.is_done i ≡ true)
    → IsCurrent m
    → IsCurrent (make_hub k m).0
make_hub-IsCurrent false m all v = v
make_hub-IsCurrent true m all v = record {
  was_made = λ i e. ground (arith, e);
  current = λ i l d. ground (arith, all i);
  unmade = λ i l. v.unmade i (omega (arith, l));
}

open_or_make-IsCurrent :
    (k : Bool) (m : HubManager) (o : Option ℕ)
    → m.hub ≡ o
    → IsCurrent m
    → IsCurrent (open_or_make k m o).0
open_or_make-IsCurrent k m none e v =
    make_hub-IsCurrent k m (λ i l. ground (arith, v.current i l, e)) v
open_or_make-IsCurrent k m (some j) e v = elim (Bool-cases (m.is_done j)) [
  | inl d ↦ rw d (make_hub-IsCurrent k m (λ i l. ground (arith, v.current i l, e, d)) v)
  | inr d ↦ rw d v
]

without-some : (i j : ℕ) (o : Option ℕ) → without i o ≡ some j → o ≡ some j
without-some i j none h = h
without-some i j (some k) h = ground (arith, h)

without-other : (i j : ℕ) → nat_eq j i ≡ false → without i (some j) ≡ some j
without-other i j h = rw h refl

operate-IsCurrent : (o : Operation) (m : HubManager) → IsCurrent m → IsCurrent (operate o m)
unfolding operate get_or_create_hub remove_hub
operate-IsCurrent (get_hub k) m v = open_or_make-IsCurrent k m m.hub refl v
operate-IsCurrent (stop i) m v = elim (Bool-cases (ltb i m.made)) [
  | inl e ↦ rw e (record {
    was_made = v.was_made;
    current = λ j l d. v.current j l (ground (arith, d));
    unmade = λ j l. ground (arith, v.unmade j, nat_eq_iff i j);
  })
  | inr e ↦ rw e v
]
operate-IsCurrent (remove i) m v = elim (Bool-cases (m.is_done i)) [
  | inl e ↦ rw e (record {
    was_made = λ j h. v.was_made j (without-some i j m.hub h);
    current =
        λ j l d. rw (v.current j l d) (without-other i j (ground (arith, nat_eq_iff j i, e, d)));
    unmade = v.unmade;
  })
  | inr e ↦ rw e v
]

manage-IsCurrent : (os : List Operation) (m : HubManager) → IsCurrent m → IsCurrent (manage os m)
unfolding manage
manage-IsCurrent [] m v = v
manage-IsCurrent (o ∷ os) m v = manage-IsCurrent os (operate o m) (operate-IsCurrent o m v)

stopped-done : (i : ℕ) (o : Option ℕ) (m : HubManager) → o ≡ some i → (stopped o m).is_done i ≡ true
stopped-done i none m e = cc
stopped-done i (some j) m e = ground (arith, e, nat_eq_iff j i)

stopped-keeps :
    (i : ℕ) (o : Option ℕ) (m : HubManager) → m.is_done i ≡ true → (stopped o m).is_done i ≡ true
stopped-keeps i none m e = e
stopped-keeps i (some j) m e = ground (arith, e)

-- After `Shutdown` every hub of a fresh server's manager is done, whatever it was asked to do before.
pub shutdown_stops_all :
    (os : List Operation) (i : ℕ)
    → i < (manage os new_hub_manager).made
    → (shutdown (manage os new_hub_manager)).is_done i ≡ true
unfolding shutdown
shutdown_stops_all os i l =
    let m = manage os new_hub_manager in
    let v = manage-IsCurrent os new_hub_manager new_hub_manager-IsCurrent in
    elim (Bool-cases (m.is_done i)) [
      | inl d ↦ stopped-keeps i m.hub (record m { hub = none }) d
      | inr d ↦ stopped-done i m.hub (record m { hub = none }) (v.current i l d)
    ]

-- Whatever the manager of a fresh server has been asked to do, short of `Shutdown`: a hub that is not
-- done is the one that it returns for the poll, so that a poll has one hub at most.
pub one_hub_per_poll :
    (os : List Operation) (i : ℕ) (subscribes : Bool)
    → i < (manage os new_hub_manager).made
    → (manage os new_hub_manager).is_done i ≡ false
    → get_or_create_hub subscribes (manage os new_hub_manager) ≡ (manage os new_hub_manager, some i)
unfolding get_or_create_hub
one_hub_per_poll os i subscribes l d =
    let m = manage os new_hub_manager in
    let v = manage-IsCurrent os new_hub_manager new_hub_manager-IsCurrent in
    rw (v.current i l d) (rw d refl)
