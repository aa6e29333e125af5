-- ===== src/Text/Trim.antt =====
-- `trim` once and again, and at ASCII texts; and a text that is not empty.
use Prim.Native.String.{[], ◌∷◌}
use pulsepoll_hcl_guvi.Prelude.{
  ◌≤◌, ◌≡◌, refl, ap, ◌∙◌, arith, code, String, true, ◌&&◌, Bool-cases, inl, inr,
}
use pulsepoll_hcl_guvi.Text
use pulsepoll_hcl_guvi.Text.{truthy, is_space, is_blank, trim_start, trim_end, trim}
use pulsepoll_hcl_guvi.Text.Laws.{cons_not_empty}
use pulsepoll_hcl_guvi.Text.Ascii.{is_ascii}

is_blank-trim_end : (s : String) → is_blank (trim_end s) ≡ is_blank s
unfolding is_blank trim_end
is_blank-trim_end [] = refl
is_blank-trim_end (c ∷ s) = elim (Bool-cases (is_space (code c) && is_blank s)) [
  | inl h ↦ rw h refl
  | inr h ↦ rw h (ap (is_space (code c) &&◌) (is_blank-trim_end s) ∙ h)
]

trim_end_idem : (s : String) → trim_end (trim_end s) ≡ trim_end s
unfolding is_blank trim_end
trim_end_idem [] = refl
trim_end_idem (c ∷ s) = elim (Bool-cases (is_space (code c) && is_blank s)) [
  | inl h ↦ rw h refl
  | inr h ↦ rw (h, is_blank-trim_end s, h, trim_end_idem s) refl
]

-- the trimming of the start leaves a text alone whose start is trimmed, at whatever end
trim_start-trim_end : (s : String) → trim_start (trim_end (trim_start s)) ≡ trim_end (trim_start s)
unfolding is_blank trim_end trim_start
trim_start-trim_end [] = refl
trim_start-trim_end (c ∷ s) = ground (arith, trim_start-trim_end s)

pub trim_idem : (s : String) → trim (trim s) ≡ trim s
unfolding trim
trim_idem s = ap trim_end (trim_start-trim_end s) ∙ trim_end_idem (trim_start s)

trim_start-ascii : (s : String) → is_ascii s ≡ true → is_ascii (trim_start s) ≡ true
unfolding trim_start
trim_start-ascii [] h = refl
trim_start-ascii (c ∷ s) h = ground (arith, trim_start-ascii s)

trim_end-ascii : (s : String) → is_ascii s ≡ true → is_ascii (trim_end s) ≡ true
unfolding trim_end
trim_end-ascii [] h = refl
trim_end-ascii (c ∷ s) h = elim (Bool-cases (is_space (code c) && is_blank s)) [
  | inl k ↦ rw k refl
  | inr k ↦ rw k (ground (arith, trim_end-ascii s))
]

pub trim-ascii : (s : String) → is_ascii s ≡ true → is_ascii (trim s) ≡ true
unfolding trim
trim-ascii s h = trim_end-ascii (trim_start s) (trim_start-ascii s h)

pub length_pos : (s : String) → truthy s ≡ true → 1 ≤ Text.length s
unfolding Text.length
length_pos [] h = cc
length_pos (c ∷ s) h = ground arith

pub truthy_of_length : (s : String) → 1 ≤ Text.length s → truthy s ≡ true
unfolding Text.length
truthy_of_length [] h = absurd (omega arith)
truthy_of_length (c ∷ s) h = rw cons_not_empty refl
