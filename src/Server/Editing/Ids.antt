-- ===== src/Server/Editing/Ids.antt =====
-- The IDs of a poll's options after an update, by which the votes name the options.
use Prim.Native.String
use pulsepoll_hcl_guvi.Prelude.{
  ◌≡◌, refl, sym, ap, ◌∙◌, String, Bool, true, false, not, List, [], ◌∷◌, map, length, length-map,
  ltb, nat_eq, nat_eq_iff, arith, if◌then◌else◌, ◌==◌,
}
use pulsepoll_hcl_guvi.Text.{truthy}
use pulsepoll_hcl_guvi.Results.{PollOption}
use pulsepoll_hcl_guvi.CreatePollPage.{has}
use pulsepoll_hcl_guvi.Server.{has_option}
use pulsepoll_hcl_guvi.Server.Editing.{
  UpdateOption, Problem, Edited, rejected, edited, before, has_ids, edit_by_id, edit_by_position,
  edit_options,
}

-- An edit that is accepted, after which another one with other IDs is accepted too.
abbrev checked : (empty long duplicate : Bool) → PollOption → Edited → Edited
checked e l d o rest =
    if e
    then rejected Problem.empty_option
    else if l
    then rejected Problem.long_option
    else if d
    then rejected Problem.duplicate_option
    else before o rest

checked-passes :
    (e l d : Bool) (o p : PollOption) (rest : Edited) (ns ms : List PollOption)
    → checked e l d o rest ≡ edited ns
    → (ks : List PollOption) × (rest ≡ edited ks) × (checked e l d p (edited ms) ≡ edited (p ∷ ms))
checked-passes true l d o p rest ns ms h = cc
checked-passes false true d o p rest ns ms h = cc
checked-passes false false true o p rest ns ms h = cc
checked-passes false false false o p (rejected x) ns ms h = cc
checked-passes false false false o p (edited ks) ns ms h = (ks, refl, refl)

count-passes :
    (k : Bool) (e : Edited) (ns : List PollOption)
    → (if not k then rejected Problem.count_changes else e) ≡ edited ns
    → (k ≡ true) × (e ≡ edited ns)
count-passes true e ns h = (refl, h)
count-passes false e ns h = cc

-- texts for the options by their position, and all for the option `id`
abbrev pub unnamed : List String → List UpdateOption
unnamed = map (λ t. record { id = ""; text = t })

abbrev pub named : String → List String → List UpdateOption
named id = map (λ t. record { id = id; text = t })

module _ (trim_space to_lower : String → String) where
  abbrev pub all_named : String → List String → List PollOption
  all_named id = map (λ t. record { id = id; text = trim_space t })

  named-passes :
      (id : String) (existing os ns : List PollOption) (seen ts : List String)
      → has_option id existing ≡ true
      → trim_space id ≡ id
      → length ts ≡ length os
      → edit_by_position trim_space to_lower os seen (unnamed ts) ≡ edited ns
      → edit_by_id trim_space to_lower existing seen (named id ts) ≡ edited (all_named id ts)
  unfolding edit_by_id edit_by_position
  named-passes id existing os ns seen [] held bare same h = refl
  named-passes id existing [] ns seen (t ∷ ts) held bare same h = absurd (omega (arith, same))
  named-passes id existing (o ∷ os) ns seen (t ∷ ts) held bare same h =
      let (ks, rest, passes) =
        checked-passes (ltb (String.len (trim_space t)) 1) (ltb 150 (String.len (trim_space t)))
          (has (to_lower (trim_space t)) seen) (record { id = o.id; text = trim_space t })
          (record { id = id; text = trim_space t }) _ ns (all_named id ts) h in
      rw bare (
        rw held (
          rw
            (named-passes id existing os ks (to_lower (trim_space t) ∷ seen) ts held bare
              (omega (arith, same)) rest)
            passes))

  unnamed-has_ids :
      (ts : List String) → trim_space "" ≡ "" → has_ids trim_space (unnamed ts) ≡ false
  unnamed-has_ids [] e = refl
  unnamed-has_ids (t ∷ ts) e = rw e (unnamed-has_ids ts e)

  only_named :
      (id q : String) (ts : List String)
      → (id == q) ≡ false
      → has_option q (all_named id ts) ≡ false
  only_named id q [] e = refl
  only_named id q (t ∷ ts) e = rw e (only_named id q ts e)

  named-chosen :
      (id : String) (existing : List PollOption) (t : String) (ts : List String)
      → trim_space id ≡ id
      → truthy id ≡ true
      → length (t ∷ ts) ≡ length existing
      → edit_by_id trim_space to_lower existing [] (named id (t ∷ ts))
        ≡ edited (all_named id (t ∷ ts))
      → edit_options trim_space to_lower existing (named id (t ∷ ts))
        ≡ edited (all_named id (t ∷ ts))
  unfolding edit_options
  named-chosen id existing t ts bare full counts accepted =
      let same : nat_eq (length (named id (t ∷ ts))) (length existing) ≡ true =
        (nat_eq_iff (length (named id (t ∷ ts))) (length existing)).1
          (length-map (λ (x : String). record { id = id; text = x }) (t ∷ ts) ∙ counts) in
      let first : truthy (trim_space id) ≡ true = ap truthy bare ∙ full in
      rw same (rw first accepted)

  -- Suppose that `TrimSpace` leaves the empty text and the ID of an option of the poll as they are. If an
  -- update may give the poll's options some texts without naming IDs, then an update that names that one
  -- ID with each of the texts is accepted as well, and every option with another ID is gone.
  pub repeated_id_loses_options :
      (id q : String) (existing ns : List PollOption) (t : String) (ts : List String)
      → trim_space "" ≡ ""
      → trim_space id ≡ id
      → truthy id ≡ true
      → has_option id existing ≡ true
      → (id == q) ≡ false
      → edit_options trim_space to_lower existing (unnamed (t ∷ ts)) ≡ edited ns
      → (edit_options trim_space to_lower existing (named id (t ∷ ts))
          ≡ edited (all_named id (t ∷ ts)))
        × (has_option q (all_named id (t ∷ ts)) ≡ false)
  unfolding edit_options
  repeated_id_loses_options id q existing ns t ts empty bare full held other h =
      let us = unnamed (t ∷ ts) in
      let (same, chosen) = count-passes (nat_eq (length us) (length existing)) _ ns h in
      let by_position =
        sym (
          ap
            (λ k.
              if k
              then edit_by_id trim_space to_lower existing [] us
              else edit_by_position trim_space to_lower existing [] us)
            (unnamed-has_ids (t ∷ ts) empty))
        ∙ chosen in
      let counts : length (t ∷ ts) ≡ length existing =
        sym (length-map (λ (x : String). record { id = ""; text = x }) (t ∷ ts))
        ∙ (nat_eq_iff (length us) (length existing)).0 same in
      let accepted =
        named-passes id existing existing ns [] (t ∷ ts) held bare counts by_position in
      (named-chosen id existing t ts bare full counts accepted, only_named id q (t ∷ ts) other)
