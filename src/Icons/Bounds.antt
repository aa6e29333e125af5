-- ===== src/Icons/Bounds.antt =====
-- The drawings stay in the view box.
use pulsepoll_hcl_guvi.Prelude.{ℕ, ◌+◌, ◌/◌, ◌≡◌, refl, Bool, true, ◌&&◌, List, [], ◌∷◌, leb}
use pulsepoll_hcl_guvi.Icons.{Shape, circle, ellipse, line, rect, polygon, polyline, path, Props}
use pulsepoll_hcl_guvi.Icons.Names.{IconName, icon}

-- what a stroke of twice the width `w` covers of a line from `a` to `b`, within 0 and `n`
abbrev spans : (n w a b : ℕ) → Bool
spans n w a b = leb w a && leb w b && leb (a + w) n && leb (b + w) n

abbrev points_inside : (n m w : ℕ) → List (ℕ × ℕ) → Bool
points_inside n m w [] = true
points_inside n m w ((x, y) ∷ ps) = spans n w x x && spans m w y y && points_inside n m w ps

-- A shape, with its stroke, lies in the box; the centre of a circle is farther from each side than
-- its radius and half the stroke. Paths are not read.
abbrev is_inside : ℕ × ℕ → (w : ℕ) → Shape → Bool
is_inside (n, m) w (circle cx cy r) = spans n (r + w) cx cx && spans m (r + w) cy cy
is_inside (n, m) w (ellipse cx cy rx ry) = spans n (rx + w) cx cx && spans m (ry + w) cy cy
is_inside (n, m) w (line x1 y1 x2 y2) = spans n w x1 x2 && spans m w y1 y2
is_inside (n, m) w (rect x y width height) = spans n w x (x + width) && spans m w y (y + height)
is_inside (n, m) w (polygon ps) = points_inside n m w ps
is_inside (n, m) w (polyline ps) = points_inside n m w ps
is_inside (n, m) w (path d) = true

abbrev all_inside : ℕ × ℕ → ℕ → List Shape → Bool
all_inside box w [] = true
all_inside box w (s ∷ ss) = is_inside box w s && all_inside box w ss

-- The circles, ellipses, lines, rectangles and polygons of each icon lie in its view box together with
-- their strokes, so that the box cuts nothing of them off.
icons_fit :
    (n : IconName) (p : Props)
    → let s = icon n p in all_inside s.view_box (s.stroke_width / 2) s.shapes ≡ true
unfolding icon
icons_fit IconName.zap p = refl
icons_fit IconName.radio p = refl
icons_fit IconName.shield p = refl
icons_fit IconName.users p = refl
icons_fit IconName.bar_chart p = refl
icons_fit IconName.plus p = refl
icons_fit IconName.trash p = refl
icons_fit IconName.edit p = refl
icons_fit IconName.copy p = refl
icons_fit IconName.check p = refl
icons_fit IconName.external_link p = refl
icons_fit IconName.arrow_right p = refl
icons_fit IconName.clock p = refl
icons_fit IconName.refresh p = refl
icons_fit IconName.alert_triangle p = refl
icons_fit IconName.check_circle p = refl
icons_fit IconName.info p = refl
icons_fit IconName.x p = refl
icons_fit IconName.server p = refl
icons_fit IconName.database p = refl
icons_fit IconName.cpu p = refl
icons_fit IconName.activity p = refl
icons_fit IconName.eye p = refl
icons_fit IconName.eye_off p = refl
icons_fit IconName.share2 p = refl
icons_fit IconName.sliders p = refl
icons_fit IconName.lock p = refl
icons_fit IconName.sparkles p = refl
