-- ===== src/Model/Open/Effect.antt =====
-- src/model/enums.rs: `Effect`, one of the open string enums that the macro declares.
use awtrix_controller.Prelude.{if◌then◌else◌}
use awtrix_controller.Prelude.Text.{Text, bytes, same}

pub data Effect : Type 0 where
  brick_breaker checkerboard color_waves fade fireworks looking_eyes matrix moving_line : Effect
  pacifica ping_pong plasma plasma_cloud radar ripple snake swirl_in swirl_out theater_chase :
      Effect
  twinkling_stars : Effect
  other : Text → Effect

unfoldable pub from_name : Text → Effect
unfolding same
from_name name =
    if same name (bytes "BrickBreaker")
    then brick_breaker
    else if same name (bytes "Checkerboard")
    then checkerboard
    else if same name (bytes "ColorWaves")
    then color_waves
    else if same name (bytes "Fade")
    then fade
    else if same name (bytes "Fireworks")
    then fireworks
    else if same name (bytes "LookingEyes")
    then looking_eyes
    else if same name (bytes "Matrix")
    then matrix
    else if same name (bytes "MovingLine")
    then moving_line
    else if same name (bytes "Pacifica")
    then pacifica
    else if same name (bytes "PingPong")
    then ping_pong
    else if same name (bytes "Plasma")
    then plasma
    else if same name (bytes "PlasmaCloud")
    then plasma_cloud
    else if same name (bytes "Radar")
    then radar
    else if same name (bytes "Ripple")
    then ripple
    else if same name (bytes "Snake")
    then snake
    else if same name (bytes "SwirlIn")
    then swirl_in
    else if same name (bytes "SwirlOut")
    then swirl_out
    else if same name (bytes "TheaterChase")
    then theater_chase
    else if same name (bytes "TwinklingStars")
    then twinkling_stars
    else other name

unfoldable pub as_str : Effect → Text
as_str brick_breaker = bytes "BrickBreaker"
as_str checkerboard = bytes "Checkerboard"
as_str color_waves = bytes "ColorWaves"
as_str fade = bytes "Fade"
as_str fireworks = bytes "Fireworks"
as_str looking_eyes = bytes "LookingEyes"
as_str matrix = bytes "Matrix"
as_str moving_line = bytes "MovingLine"
as_str pacifica = bytes "Pacifica"
as_str ping_pong = bytes "PingPong"
as_str plasma = bytes "Plasma"
as_str plasma_cloud = bytes "PlasmaCloud"
as_str radar = bytes "Radar"
as_str ripple = bytes "Ripple"
as_str snake = bytes "Snake"
as_str swirl_in = bytes "SwirlIn"
as_str swirl_out = bytes "SwirlOut"
as_str theater_chase = bytes "TheaterChase"
as_str twinkling_stars = bytes "TwinklingStars"
as_str (other name) = name
