-- ===== src/Icons/Second.antt =====
-- frontend/src/components/Icons.jsx: the icons from IconAlertTriangle to IconSparkles.
use pulsepoll_hcl_guvi.Prelude.{true, [], ◌∷◌}
use pulsepoll_hcl_guvi.Icons.{
  circle, ellipse, line, rect, polyline, path, Props, Svg, size_of, class_of,
}

unfoldable pub icon_alert_triangle : Props → Svg
icon_alert_triangle p = record {
  width = size_of p.size;
  height = size_of p.size;
  view_box = (2400, 2400);
  stroke_width = 200;
  class_name = class_of p.class_name;
  aria_hidden = true;
  shapes =
      (path
          "M10.29 3.86L1.82 18a2 2 0 0 0 1.71 3h16.94a2 2 0 0 0 1.71-3L13.71 3.86a2 2 0 0 0-3.42 0z"
        ∷ line 1200 900 1200 1300
        ∷ line 1200 1700 1201 1700
        ∷ []);
}

unfoldable pub icon_check_circle : Props → Svg
icon_check_circle p = record {
  width = size_of p.size;
  height = size_of p.size;
  view_box = (2400, 2400);
  stroke_width = 200;
  class_name = class_of p.class_name;
  aria_hidden = true;
  shapes =
      (path "M22 11.08V12a10 10 0 1 1-5.93-9.14"
        ∷ polyline ((2200, 400) ∷ (1200, 1401) ∷ (900, 1101) ∷ [])
        ∷ []);
}

unfoldable pub icon_info : Props → Svg
icon_info p = record {
  width = size_of p.size;
  height = size_of p.size;
  view_box = (2400, 2400);
  stroke_width = 200;
  class_name = class_of p.class_name;
  aria_hidden = true;
  shapes = (circle 1200 1200 1000 ∷ line 1200 1600 1200 1200 ∷ line 1200 800 1201 800 ∷ []);
}

unfoldable pub icon_x : Props → Svg
icon_x p = record {
  width = size_of p.size;
  height = size_of p.size;
  view_box = (2400, 2400);
  stroke_width = 200;
  class_name = class_of p.class_name;
  aria_hidden = true;
  shapes = (line 1800 600 600 1800 ∷ line 600 600 1800 1800 ∷ []);
}

unfoldable pub icon_server : Props → Svg
icon_server p = record {
  width = size_of p.size;
  height = size_of p.size;
  view_box = (2400, 2400);
  stroke_width = 200;
  class_name = class_of p.class_name;
  aria_hidden = true;
  shapes =
      (rect 200 200 2000 800
        ∷ rect 200 1400 2000 800
        ∷ line 600 600 601 600
        ∷ line 600 1800 601 1800
        ∷ []);
}

unfoldable pub icon_database : Props → Svg
icon_database p = record {
  width = size_of p.size;
  height = size_of p.size;
  view_box = (2400, 2400);
  stroke_width = 200;
  class_name = class_of p.class_name;
  aria_hidden = true;
  shapes =
      (ellipse 1200 500 900 300
        ∷ path "M21 12c0 1.66-4 3-9 3s-9-1.34-9-3"
        ∷ path "M3 5v14c0 1.66 4 3 9 3s9-1.34 9-3V5"
        ∷ []);
}

unfoldable pub icon_cpu : Props → Svg
icon_cpu p = record {
  width = size_of p.size;
  height = size_of p.size;
  view_box = (2400, 2400);
  stroke_width = 200;
  class_name = class_of p.class_name;
  aria_hidden = true;
  shapes =
      (rect 400 400 1600 1600
        ∷ rect 900 900 600 600
        ∷ line 900 100 900 400
        ∷ line 1500 100 1500 400
        ∷ line 900 2000 900 2300
        ∷ line 1500 2000 1500 2300
        ∷ line 2000 900 2300 900
        ∷ line 2000 1400 2300 1400
        ∷ line 100 900 400 900
        ∷ line 100 1400 400 1400
        ∷ []);
}

unfoldable pub icon_activity : Props → Svg
icon_activity p = record {
  width = size_of p.size;
  height = size_of p.size;
  view_box = (2400, 2400);
  stroke_width = 200;
  class_name = class_of p.class_name;
  aria_hidden = true;
  shapes =
      (polyline
          ((2200, 1200) ∷ (1800, 1200) ∷ (1500, 2100) ∷ (900, 300) ∷ (600, 1200) ∷ (200, 1200) ∷ [])
        ∷ []);
}

unfoldable pub icon_eye : Props → Svg
icon_eye p = record {
  width = size_of p.size;
  height = size_of p.size;
  view_box = (2400, 2400);
  stroke_width = 200;
  class_name = class_of p.class_name;
  aria_hidden = true;
  shapes = (path "M1 12s4-8 11-8 11 8 11 8-4 8-11 8-11-8-11-8z" ∷ circle 1200 1200 300 ∷ []);
}

unfoldable pub icon_eye_off : Props → Svg
icon_eye_off p = record {
  width = size_of p.size;
  height = size_of p.size;
  view_box = (2400, 2400);
  stroke_width = 200;
  class_name = class_of p.class_name;
  aria_hidden = true;
  shapes =
      (path
          "M17.94 17.94A10.07 10.07 0 0 1 12 20c-7 0-11-8-11-8a18.45 18.45 0 0 1 5.06-5.94M9.9 4.24A9.12 9.12 0 0 1 12 4c7 0 11 8 11 8a18.5 18.5 0 0 1-2.16 3.19m-6.72-1.07a3 3 0 1 1-4.24-4.24"
        ∷ line 100 100 2300 2300
        ∷ []);
}

unfoldable pub icon_share2 : Props → Svg
icon_share2 p = record {
  width = size_of p.size;
  height = size_of p.size;
  view_box = (2400, 2400);
  stroke_width = 200;
  class_name = class_of p.class_name;
  aria_hidden = true;
  shapes =
      (circle 1800 500 300
        ∷ circle 600 1200 300
        ∷ circle 1800 1900 300
        ∷ line 859 1351 1542 1749
        ∷ line 1541 651 859 1049
        ∷ []);
}

unfoldable pub icon_sliders : Props → Svg
icon_sliders p = record {
  width = size_of p.size;
  height = size_of p.size;
  view_box = (2400, 2400);
  stroke_width = 200;
  class_name = class_of p.class_name;
  aria_hidden = true;
  shapes =
      (line 400 2100 400 1400
        ∷ line 400 1000 400 300
        ∷ line 1200 2100 1200 1200
        ∷ line 1200 800 1200 300
        ∷ line 2000 2100 2000 1600
        ∷ line 2000 1200 2000 300
        ∷ line 100 1400 700 1400
        ∷ line 900 800 1500 800
        ∷ line 1700 1600 2300 1600
        ∷ []);
}

unfoldable pub icon_lock : Props → Svg
icon_lock p = record {
  width = size_of p.size;
  height = size_of p.size;
  view_box = (2400, 2400);
  stroke_width = 200;
  class_name = class_of p.class_name;
  aria_hidden = true;
  shapes = (rect 300 1100 1800 1100 ∷ path "M7 11V7a5 5 0 0 1 10 0v4" ∷ []);
}

unfoldable pub icon_sparkles : Props → Svg
icon_sparkles p = record {
  width = size_of p.size;
  height = size_of p.size;
  view_box = (2400, 2400);
  stroke_width = 200;
  class_name = class_of p.class_name;
  aria_hidden = true;
  shapes =
      (path
          "m12 3-1.912 5.813a2 2 0 0 1-1.275 1.275L3 12l5.813 1.912a2 2 0 0 1 1.275 1.275L12 21l1.912-5.813a2 2 0 0 1 1.275-1.275L21 12l-5.813-1.912a2 2 0 0 1-1.275-1.275L12 3Z"
        ∷ path "M5 3v4"
        ∷ path "M19 17v4"
        ∷ path "M3 5h4"
        ∷ path "M17 19h4"
        ∷ []);
}
