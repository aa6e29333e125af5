-- ===== src/Text/Ascii.antt =====
-- Texts of ASCII characters, where JavaScript and Go agree, by the codes of their characters.
use Prim.Native.String.{[], ◌∷◌}
use Prim.Native.String
use Prim.Native.Char.{Char, len_utf8, len_utf8_def}
use pulsepoll_hcl_guvi.Prelude.{
  ℕ, ◌+◌, ◌≡◌, refl, ap, ap₂, ◌∙◌, arith, code, String, Bool, true, false, ◌&&◌, ◌||◌, List, ◌∷◌,
  map, nat_eq, leb, ltb, if◌then◌else◌,
}
use pulsepoll_hcl_guvi.Text.{starts_with, includes, length}

abbrev pub codes : String → List ℕ
codes [] = List.[]
codes (c ∷ s) = code c ∷ codes s

abbrev pub is_ascii : String → Bool
is_ascii [] = true
is_ascii (c ∷ s) = ltb (code c) 128 && is_ascii s

-- the lower-case letter of an ASCII capital
abbrev pub lower_code : ℕ → ℕ
lower_code n = if leb 65 n && leb n 90 then n + 32 else n

-- What `toLowerCase` of JavaScript and `strings.ToLower` of Go do to an ASCII text.
abbrev pub LowersAscii : (String → String) → Type 0
LowersAscii lower = (s : String) → is_ascii s ≡ true → codes (lower s) ≡ map lower_code (codes s)

abbrev pub starts_codes : List ℕ → List ℕ → Bool
starts_codes ns List.[] = true
starts_codes List.[] (_ ∷ _) = false
starts_codes (n ∷ ns) (m ∷ ms) = nat_eq n m && starts_codes ns ms

abbrev pub includes_codes : List ℕ → List ℕ → Bool
includes_codes List.[] ms = starts_codes List.[] ms
includes_codes (n ∷ ns) ms = starts_codes (n ∷ ns) ms || includes_codes ns ms

starts_with-codes : (s p : String) → starts_with s p ≡ starts_codes (codes s) (codes p)
unfolding starts_with
starts_with-codes s [] = refl
starts_with-codes [] (d ∷ p) = refl
starts_with-codes (c ∷ s) (d ∷ p) = ap (nat_eq (code c) (code d) &&◌) (starts_with-codes s p)

pub includes-codes : (s p : String) → includes s p ≡ includes_codes (codes s) (codes p)
unfolding includes
includes-codes [] p = starts_with-codes [] p
includes-codes (c ∷ s) p = ap₂ ◌||◌ (starts_with-codes (c ∷ s) p) (includes-codes s p)

len_utf8-ascii : (c : Char) → ltb (code c) 128 ≡ true → len_utf8 c ≡ 1
len_utf8-ascii c h = (λ i. len_utf8_def c i) ∙ ground arith

-- An ASCII text has as many bytes in UTF-8 as it has UTF-16 code units.
pub len-ascii : (s : String) → is_ascii s ≡ true → String.len s ≡ length s
unfolding length
len-ascii [] h = λ i. String.len.nil i
len-ascii (c ∷ s) h =
    let first : ltb (code c) 128 ≡ true = ground arith in
    (λ i. String.len.cons c s i) ∙ ground (arith, len_utf8-ascii c first, len-ascii s)
