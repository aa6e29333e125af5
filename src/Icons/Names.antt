-- ===== src/Icons/Names.antt =====
-- The icons by their names.
use pulsepoll_hcl_guvi.Icons.{Props, Svg}
use pulsepoll_hcl_guvi.Icons.First.{
  icon_zap, icon_radio, icon_shield, icon_users, icon_bar_chart, icon_plus, icon_trash, icon_edit,
  icon_copy, icon_check, icon_external_link, icon_arrow_right, icon_clock, icon_refresh,
}
use pulsepoll_hcl_guvi.Icons.Second.{
  icon_alert_triangle, icon_check_circle, icon_info, icon_x, icon_server, icon_database, icon_cpu,
  icon_activity, icon_eye, icon_eye_off, icon_share2, icon_sliders, icon_lock, icon_sparkles,
}

-- The names of the components, without `Icon`.
pub data IconName : Type 0 where
  zap radio shield users bar_chart plus trash edit copy check external_link arrow_right clock
        refresh alert_triangle check_circle info x server database cpu activity eye eye_off share2
        sliders lock sparkles :
      IconName

unfoldable pub icon : IconName → Props → Svg
unfolding icon_zap icon_radio icon_shield icon_users icon_bar_chart icon_plus icon_trash icon_edit
    icon_copy icon_check icon_external_link icon_arrow_right icon_clock icon_refresh
    icon_alert_triangle icon_check_circle icon_info icon_x icon_server icon_database icon_cpu
    icon_activity icon_eye icon_eye_off icon_share2 icon_sliders icon_lock icon_sparkles
icon zap = icon_zap
icon radio = icon_radio
icon shield = icon_shield
icon users = icon_users
icon bar_chart = icon_bar_chart
icon plus = icon_plus
icon trash = icon_trash
icon edit = icon_edit
icon copy = icon_copy
icon check = icon_check
icon external_link = icon_external_link
icon arrow_right = icon_arrow_right
icon clock = icon_clock
icon refresh = icon_refresh
icon alert_triangle = icon_alert_triangle
icon check_circle = icon_check_circle
icon info = icon_info
icon x = icon_x
icon server = icon_server
icon database = icon_database
icon cpu = icon_cpu
icon activity = icon_activity
icon eye = icon_eye
icon eye_off = icon_eye_off
icon share2 = icon_share2
icon sliders = icon_sliders
icon lock = icon_lock
icon sparkles = icon_sparkles
