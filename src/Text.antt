-- ===== src/Text.antt =====
-- The JavaScript string operations that the frontend uses, over texts of Unicode characters.
-- `length` counts UTF-16 code units, as JavaScript does; a lone surrogate is not representable.
pub mod Laws
pub mod Ascii
pub mod Trim
use Prim.Native.String.{[], ◌∷◌}
use Prim.Native.String
use pulsepoll_hcl_guvi.Prelude.{
  ℕ, ◌+◌, code, String, Bool, true, false, not, ◌&&◌, ◌||◌, nat_eq, leb, if◌then◌else◌, ◌==◌,
}

infixr 65 ◌⧺◌
abbrev pub ◌⧺◌ : String → String → String
◌⧺◌ = String.◌++◌

-- WhiteSpace and LineTerminator of ECMAScript: what `trim` removes and `\s` matches.
unfoldable pub is_space : ℕ → Bool
is_space c =
    (leb 9 c && leb c 13)
    || nat_eq c 32
    || nat_eq c 160
    || nat_eq c 0x1680
    || (leb 0x2000 c && leb c 0x200A)
    || nat_eq c 0x2028
    || nat_eq c 0x2029
    || nat_eq c 0x202F
    || nat_eq c 0x205F
    || nat_eq c 0x3000
    || nat_eq c 0xFEFF

abbrev pub units : ℕ → ℕ
units c = if leb 0x10000 c then 2 else 1

-- `s.length`
unfoldable pub length : String → ℕ
length [] = 0
length (c ∷ s) = units (code c) + length s

unfoldable pub trim_start : String → String
trim_start [] = []
trim_start (c ∷ s) = let rest = trim_start s in if is_space (code c) then rest else c ∷ s

unfoldable pub is_blank : String → Bool
is_blank [] = true
is_blank (c ∷ s) = is_space (code c) && is_blank s

unfoldable pub trim_end : String → String
trim_end [] = []
trim_end (c ∷ s) = if is_space (code c) && is_blank s then [] else c ∷ trim_end s

-- `s.trim()`
unfoldable pub trim : String → String
trim s = trim_end (trim_start s)

unfoldable pub starts_with : String → String → Bool
starts_with s [] = true
starts_with [] (_ ∷ _) = false
starts_with (c ∷ s) (d ∷ p) = nat_eq (code c) (code d) && starts_with s p

-- `s.includes(p)`
unfoldable pub includes : String → String → Bool
unfolding starts_with
includes [] p = starts_with [] p
includes (c ∷ s) p = starts_with (c ∷ s) p || includes s p

-- `s.endsWith(p)`
unfoldable pub ends_with : String → String → Bool
ends_with [] p = [] == p
ends_with (c ∷ s) p = ((c ∷ s) == p) || ends_with s p

-- the truth value of a string
abbrev pub truthy : String → Bool
truthy s = not (s == "")

-- `s || d`
abbrev pub or_else : String → String → String
or_else s d = if truthy s then s else d
