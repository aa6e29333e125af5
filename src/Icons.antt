-- ===== src/Icons.antt =====
-- frontend/src/components/Icons.jsx: the icons, each a drawing in a view box of 24 by 24. Lengths are
-- in hundredths of its unit. The `d` of a path is kept as it is written, and not read; the radii
-- of rounded corners are left out.
pub mod First
pub mod Second
mod Names
mod Bounds
use pulsepoll_hcl_guvi.Prelude.{ℕ, ◌*◌, String, Bool, true, Option, none, some, List}

pub data Shape : Type 0 where
  circle : (cx cy r : ℕ) → Shape
  ellipse : (cx cy rx ry : ℕ) → Shape
  line : (x1 y1 x2 y2 : ℕ) → Shape
  rect : (x y width height : ℕ) → Shape
  polygon polyline : List (ℕ × ℕ) → Shape
  path : String → Shape

-- the properties of an icon, which have defaults
pub record Props : Type 0 where
  pub class_name : Option String
  pub size : Option ℕ

pub record Svg : Type 0 where
  pub width : ℕ
  pub height : ℕ
  pub view_box : ℕ × ℕ
  pub stroke_width : ℕ
  pub class_name : String
  pub aria_hidden : Bool
  pub shapes : List Shape

abbrev pub size_of : Option ℕ → ℕ
size_of none = 18
size_of (some n) = n

abbrev pub class_of : Option String → String
class_of none = ""
class_of (some c) = c
