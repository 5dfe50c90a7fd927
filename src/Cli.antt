-- ===== src/Cli.antt =====
-- src/cli/mod.rs: the flags, and the notification that the `--test-notification-*` flags describe.
pub mod Flags
pub mod Form
pub mod Given
use awtrix_controller.Prelude.{
  ◌∷◌, ◌||◌, Bool, true, false, Option, none, some, List, [], any, is_some, unwrap_or,
  if◌then◌else◌,
}
use awtrix_controller.Prelude.Int.{ℤ, pos}
use awtrix_controller.Prelude.Text.{Text}
use awtrix_controller.Clock.{and_then}
use awtrix_controller.Config.Sections.{LogFormat}
use awtrix_controller.Model.Enums.{from_name}
use awtrix_controller.Model.Open.Effect
use awtrix_controller.Model.Payload
use awtrix_controller.Model.Payload.{
  PushIconBehavior, static, TextCaseMode, global_setting, Notification, default_notification,
  default_content,
}
use awtrix_controller.Cli.Flags.{parse_bool_option, parse_int_option}

pub record TestNotificationArgs : Type 0 where
  pub text : Option Text
  pub icon : Option Text
  pub duration : Option ℤ
  pub rainbow : Option Bool
  pub scroll_speed : Option ℤ
  pub no_scroll : Option Bool
  pub color : Option Text
  pub background : Option Text
  pub overlay : Option Text
  pub effect : Option Text
  pub blink_text : Option ℤ
  pub fade_text : Option ℤ
  pub text_case : Option TextCaseMode
  pub top_text : Option Bool
  pub text_offset : Option ℤ
  pub push_icon : Option PushIconBehavior
  pub center : Option Text
  pub hold : Option Bool
  pub sound : Option Text
  pub rtttl : Option Text
  pub loop_sound : Option Bool
  pub stack : Option Text
  pub wakeup : Option Bool
  pub repeat : Option Text

pub record Cli : Type 0 where
  pub config : Option Text
  pub log_level : Option Text
  pub log_format : Option LogFormat
  pub version : Option Bool
  pub weather_wmo : Option ℤ
  pub test_notification : TestNotificationArgs

-- Whether each flag was given.
unfoldable pub given_flags : TestNotificationArgs → List Bool
given_flags args =
    is_some args.text
    ∷ is_some args.icon
    ∷ is_some args.duration
    ∷ is_some args.rainbow
    ∷ is_some args.scroll_speed
    ∷ is_some args.no_scroll
    ∷ is_some args.color
    ∷ is_some args.background
    ∷ is_some args.overlay
    ∷ is_some args.effect
    ∷ is_some args.blink_text
    ∷ is_some args.fade_text
    ∷ is_some args.text_case
    ∷ is_some args.top_text
    ∷ is_some args.text_offset
    ∷ is_some args.push_icon
    ∷ is_some args.center
    ∷ is_some args.hold
    ∷ is_some args.sound
    ∷ is_some args.rtttl
    ∷ is_some args.loop_sound
    ∷ is_some args.stack
    ∷ is_some args.wakeup
    ∷ is_some args.repeat
    ∷ []

-- `Option::map`.
abbrev pub mapped : {A B : Type 0} → (A → B) → Option A → Option B
mapped f none = none
mapped f (some a) = some (f a)

-- The notification, once a flag was given.
unfoldable pub described : TestNotificationArgs → Notification
described args = record default_notification {
  content = record default_content {
    text = mapped Payload.plain args.text;
    icon = unwrap_or args.icon [];
    duration = unwrap_or args.duration (pos 0);
    rainbow = unwrap_or args.rainbow false;
    scroll_speed = unwrap_or args.scroll_speed (pos 0);
    no_scroll = unwrap_or args.no_scroll false;
    color = unwrap_or args.color [];
    background = unwrap_or args.background [];
    overlay = mapped from_name args.overlay;
    effect = mapped Effect.from_name args.effect;
    blink_text = unwrap_or args.blink_text (pos 0);
    fade_text = unwrap_or args.fade_text (pos 0);
    text_case = unwrap_or args.text_case global_setting;
    top_text = unwrap_or args.top_text false;
    text_offset = unwrap_or args.text_offset (pos 0);
    push_icon = unwrap_or args.push_icon static;
    center = and_then args.center parse_bool_option;
    repeat = and_then args.repeat parse_int_option;
  };
  hold = unwrap_or args.hold false;
  sound = unwrap_or args.sound [];
  rtttl = unwrap_or args.rtttl [];
  loop_sound = unwrap_or args.loop_sound false;
  stack = and_then args.stack parse_bool_option;
  wakeup = unwrap_or args.wakeup false;
}

unfoldable pub notification : TestNotificationArgs → Option Notification
notification args = if any (λ given. given) (given_flags args) then some (described args) else none
