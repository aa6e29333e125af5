-- ===== src/Icons/First.antt =====
-- frontend/src/components/Icons.jsx: the icons from IconZap to IconRefresh.
use pulsepoll_hcl_guvi.Prelude.{true, [], ◌∷◌}
use pulsepoll_hcl_guvi.Icons.{
  circle, line, rect, polygon, polyline, path, Props, Svg, size_of, class_of,
}

unfoldable pub icon_zap : Props → Svg
icon_zap p = record {
  width = size_of p.size;
  height = size_of p.size;
  view_box = (2400, 2400);
  stroke_width = 200;
  class_name = class_of p.class_name;
  aria_hidden = true;
  shapes =
      (polygon (
          (1300, 200)
          ∷ (300, 1400)
          ∷ (1200, 1400)
          ∷ (1100, 2200)
          ∷ (2100, 1000)
          ∷ (1200, 1000)
          ∷ (1300, 200)
          ∷ [])
        ∷ []);
}

unfoldable pub icon_radio : Props → Svg
icon_radio p = record {
  width = size_of p.size;
  height = size_of p.size;
  view_box = (2400, 2400);
  stroke_width = 200;
  class_name = class_of p.class_name;
  aria_hidden = true;
  shapes =
      (circle 1200 1200 200
        ∷ path
            "M16.24 7.76a6 6 0 0 1 0 8.49m-8.48-.01a6 6 0 0 1 0-8.49m11.31-2.82a10 10 0 0 1 0 14.14m-14.14 0a10 10 0 0 1 0-14.14"
        ∷ []);
}

unfoldable pub icon_shield : Props → Svg
icon_shield p = record {
  width = size_of p.size;
  height = size_of p.size;
  view_box = (2400, 2400);
  stroke_width = 200;
  class_name = class_of p.class_name;
  aria_hidden = true;
  shapes = (path "M12 22s8-4 8-10V5l-8-3-8 3v7c0 6 8 10 8 10z" ∷ []);
}

unfoldable pub icon_users : Props → Svg
icon_users p = record {
  width = size_of p.size;
  height = size_of p.size;
  view_box = (2400, 2400);
  stroke_width = 200;
  class_name = class_of p.class_name;
  aria_hidden = true;
  shapes =
      (path "M17 21v-2a4 4 0 0 0-4-4H5a4 4 0 0 0-4 4v2"
        ∷ circle 900 700 400
        ∷ path "M23 21v-2a4 4 0 0 0-3-3.87"
        ∷ path "M16 3.13a4 4 0 0 1 0 7.75"
        ∷ []);
}

unfoldable pub icon_bar_chart : Props → Svg
icon_bar_chart p = record {
  width = size_of p.size;
  height = size_of p.size;
  view_box = (2400, 2400);
  stroke_width = 200;
  class_name = class_of p.class_name;
  aria_hidden = true;
  shapes = (line 1800 2000 1800 1000 ∷ line 1200 2000 1200 400 ∷ line 600 2000 600 1400 ∷ []);
}

unfoldable pub icon_plus : Props → Svg
icon_plus p = record {
  width = size_of p.size;
  height = size_of p.size;
  view_box = (2400, 2400);
  stroke_width = 200;
  class_name = class_of p.class_name;
  aria_hidden = true;
  shapes = (line 1200 500 1200 1900 ∷ line 500 1200 1900 1200 ∷ []);
}

unfoldable pub icon_trash : Props → Svg
icon_trash p = record {
  width = size_of p.size;
  height = size_of p.size;
  view_box = (2400, 2400);
  stroke_width = 200;
  class_name = class_of p.class_name;
  aria_hidden = true;
  shapes =
      (polyline ((300, 600) ∷ (500, 600) ∷ (2100, 600) ∷ [])
        ∷ path "M19 6v14a2 2 0 0 1-2 2H7a2 2 0 0 1-2-2V6m3 0V4a2 2 0 0 1 2-2h4a2 2 0 0 1 2 2v2"
        ∷ []);
}

unfoldable pub icon_edit : Props → Svg
icon_edit p = record {
  width = size_of p.size;
  height = size_of p.size;
  view_box = (2400, 2400);
  stroke_width = 200;
  class_name = class_of p.class_name;
  aria_hidden = true;
  shapes =
      (path "M11 4H4a2 2 0 0 0-2 2v14a2 2 0 0 0 2 2h14a2 2 0 0 0 2-2v-7"
        ∷ path "M18.5 2.5a2.121 2.121 0 0 1 3 3L12 15l-4 1 1-4 9.5-9.5z"
        ∷ []);
}

unfoldable pub icon_copy : Props → Svg
icon_copy p = record {
  width = size_of p.size;
  height = size_of p.size;
  view_box = (2400, 2400);
  stroke_width = 200;
  class_name = class_of p.class_name;
  aria_hidden = true;
  shapes =
      (rect 900 900 1300 1300
        ∷ path "M5 15H4a2 2 0 0 1-2-2V4a2 2 0 0 1 2-2h9a2 2 0 0 1 2 2v1"
        ∷ []);
}

unfoldable pub icon_check : Props → Svg
icon_check p = record {
  width = size_of p.size;
  height = size_of p.size;
  view_box = (2400, 2400);
  stroke_width = 250;
  class_name = class_of p.class_name;
  aria_hidden = true;
  shapes = (polyline ((2000, 600) ∷ (900, 1700) ∷ (400, 1200) ∷ []) ∷ []);
}

unfoldable pub icon_external_link : Props → Svg
icon_external_link p = record {
  width = size_of p.size;
  height = size_of p.size;
  view_box = (2400, 2400);
  stroke_width = 200;
  class_name = class_of p.class_name;
  aria_hidden = true;
  shapes =
      (path "M18 13v6a2 2 0 0 1-2 2H5a2 2 0 0 1-2-2V8a2 2 0 0 1 2-2h6"
        ∷ polyline ((1500, 300) ∷ (2100, 300) ∷ (2100, 900) ∷ [])
        ∷ line 1000 1400 2100 300
        ∷ []);
}

unfoldable pub icon_arrow_right : Props → Svg
icon_arrow_right p = record {
  width = size_of p.size;
  height = size_of p.size;
  view_box = (2400, 2400);
  stroke_width = 200;
  class_name = class_of p.class_name;
  aria_hidden = true;
  shapes =
      (line 500 1200 1900 1200 ∷ polyline ((1200, 500) ∷ (1900, 1200) ∷ (1200, 1900) ∷ []) ∷ []);
}

unfoldable pub icon_clock : Props → Svg
icon_clock p = record {
  width = size_of p.size;
  height = size_of p.size;
  view_box = (2400, 2400);
  stroke_width = 200;
  class_name = class_of p.class_name;
  aria_hidden = true;
  shapes = (circle 1200 1200 1000 ∷ polyline ((1200, 600) ∷ (1200, 1200) ∷ (1600, 1400) ∷ []) ∷ []);
}

unfoldable pub icon_refresh : Props → Svg
icon_refresh p = record {
  width = size_of p.size;
  height = size_of p.size;
  view_box = (2400, 2400);
  stroke_width = 200;
  class_name = class_of p.class_name;
  aria_hidden = true;
  shapes =
      (polyline ((2300, 400) ∷ (2300, 1000) ∷ (1700, 1000) ∷ [])
        ∷ polyline ((100, 2000) ∷ (100, 1400) ∷ (700, 1400) ∷ [])
        ∷ path "M3.51 9a9 9 0 0 1 14.85-3.36L23 10M1 14l4.64 4.36A9 9 0 0 0 20.49 15"
        ∷ []);
}
