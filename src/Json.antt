-- ===== src/Json.antt =====
-- JSON values as the response handling of frontend/src/api/client.js meets them, with the
-- JavaScript operations that it applies to them. Numbers are natural; an object with a member
-- named `toString`, at which `String(v)` throws, is read like any other.
use Prim.Native.String.{[], ◌∷◌}
use text.Mathlib.TextLemmas.{nil-append, cons-append}
use pulsepoll_hcl_guvi.Prelude.{
  ℕ, zero, suc, ◌/◌, ◌%◌, ◌≡◌, refl, String, Bool, true, false, not, Option, none, some, nat_eq,
  ltb, if◌then◌else◌, ◌==◌,
}
use pulsepoll_hcl_guvi.Text.{◌⧺◌, truthy}
use pulsepoll_hcl_guvi.Text.Laws.{cons_not_empty}

mutual
  pub data Json : Type 0 where
    null : Json
    bool : Bool → Json
    num : ℕ → Json
    str : String → Json
    arr : Items → Json
    obj : Fields → Json

  pub data Items : Type 0 where
    nil : Items
    cons : Json → Items → Items

  pub data Fields : Type 0 where
    end : Fields
    field : String → Json → Fields → Fields

-- the truth value of `v`
abbrev pub is_truthy : Json → Bool
is_truthy null = false
is_truthy (bool b) = b
is_truthy (num n) = not (nat_eq n 0)
is_truthy (str s) = truthy s
is_truthy (arr xs) = true
is_truthy (obj fs) = true

abbrev pub lookup : String → Fields → Option Json
lookup k end = none
lookup k (field j v fs) = if j == k then some v else lookup k fs

-- `v?.k`; `none` is `undefined`
abbrev pub get : String → Json → Option Json
get k (obj fs) = lookup k fs
get k _ = none

-- `x || d`
abbrev pub or_json : Option Json → Json → Json
or_json none d = d
or_json (some v) d = if is_truthy v then v else d

-- `v === s` at a string `s`
abbrev pub is_str : Json → String → Bool
is_str (str t) s = t == s
is_str _ s = false

digit : ℕ → String
digit n =
    if nat_eq n 0
    then "0"
    else if nat_eq n 1
    then "1"
    else if nat_eq n 2
    then "2"
    else if nat_eq n 3
    then "3"
    else if nat_eq n 4
    then "4"
    else if nat_eq n 5
    then "5"
    else if nat_eq n 6
    then "6"
    else if nat_eq n 7
    then "7"
    else if nat_eq n 8
    then "8"
    else "9"

decimal_from : ℕ → ℕ → String
decimal_from zero n = ""
decimal_from (suc fuel) n =
    let front = decimal_from fuel (n / 10) in if ltb n 10 then digit n else front ⧺ digit (n % 10)

-- a natural number in decimal; it has at most `n + 1` digits
unfoldable pub decimal : ℕ → String
unfolding decimal_from digit
decimal n = decimal_from (suc n) n

if-truthy :
    (b : Bool) (s t : String)
    → truthy s ≡ true
    → truthy t ≡ true
    → truthy (if b then s else t) ≡ true
if-truthy true s t h g = h
if-truthy false s t h g = g

digit-truthy : (n : ℕ) → truthy (digit n) ≡ true
unfolding digit
digit-truthy n = if-truthy (nat_eq n 0) "0" _ refl (
    if-truthy (nat_eq n 1) "1" _ refl (
      if-truthy (nat_eq n 2) "2" _ refl (
        if-truthy (nat_eq n 3) "3" _ refl (
          if-truthy (nat_eq n 4) "4" _ refl (
            if-truthy (nat_eq n 5) "5" _ refl (
              if-truthy (nat_eq n 6) "6" _ refl
                (if-truthy (nat_eq n 7) "7" _ refl (if-truthy (nat_eq n 8) "8" "9" refl refl))))))))

append-truthy : (s t : String) → truthy t ≡ true → truthy (s ⧺ t) ≡ true
append-truthy [] t h = rw (nil-append t) h
append-truthy (c ∷ s) t h = rw (cons-append c s t) (rw (cons_not_empty c (s ⧺ t)) refl)

pub decimal-truthy : (n : ℕ) → truthy (decimal n) ≡ true
unfolding decimal decimal_from
decimal-truthy n =
    if-truthy (ltb n 10) (digit n) (decimal_from n (n / 10) ⧺ digit (n % 10)) (digit-truthy n)
      (append-truthy (decimal_from n (n / 10)) (digit (n % 10)) (digit-truthy (n % 10)))

-- `String(v)`: an array joins its elements by commas, and `null` there is the empty text
unfoldable mutual
  pub to_string : Json → String
  to_string null = "null"
  to_string (bool true) = "true"
  to_string (bool false) = "false"
  to_string (num n) = decimal n
  to_string (str s) = s
  to_string (arr xs) = join xs
  to_string (obj fs) = "[object Object]"

  pub join : Items → String
  join nil = ""
  join (cons null nil) = ""
  join (cons null (cons y ys)) = "," ⧺ join (cons y ys)
  join (cons x nil) = to_string x
  join (cons x (cons y ys)) = to_string x ⧺ "," ⧺ join (cons y ys)
