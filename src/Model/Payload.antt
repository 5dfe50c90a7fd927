-- ===== src/Model/Payload.antt =====
-- src/model/notification.rs, text.rs, draw.rs, misc.rs and enums.rs: the payload of a notification.
use awtrix_controller.Prelude.{Bool, false, Option, none, List, []}
use awtrix_controller.Prelude.Int.{ℤ, pos}
use awtrix_controller.Prelude.Text.{Text}
use awtrix_controller.Model.Enums.{OverlayEffect}
use awtrix_controller.Model.Open.Effect.{Effect}
use awtrix_controller.Model.Open.EffectPalette.{EffectPalette}

pub data PushIconBehavior : Type 0 where
  static scroll fixed : PushIconBehavior

pub data TextCaseMode : Type 0 where
  global_setting uppercase as_is : TextCaseMode

pub record TextFragment : Type 0 where
  pub text : Text
  pub color : Text

pub data TextContent : Type 0 where
  plain : Text → TextContent
  fragments : List TextFragment → TextContent

pub data DrawInstruction : Type 0 where
  pixel : ℤ → ℤ → Text → DrawInstruction
  line rect filled_rect : ℤ → ℤ → ℤ → ℤ → Text → DrawInstruction
  circle filled_circle : ℤ → ℤ → ℤ → Text → DrawInstruction
  text : ℤ → ℤ → Text → Text → DrawInstruction
  bitmap : ℤ → ℤ → ℤ → ℤ → List ℤ → DrawInstruction

pub record EffectSettings : Type 0 where
  pub speed : ℤ
  pub palette : Option EffectPalette
  pub blend : Bool

pub record AppContent : Type 0 where
  pub text : Option TextContent
  pub text_case : TextCaseMode
  pub top_text : Bool
  pub text_offset : ℤ
  pub center : Option Bool
  pub color : Text
  pub gradient : List Text
  pub blink_text : ℤ
  pub fade_text : ℤ
  pub background : Text
  pub rainbow : Bool
  pub icon : Text
  pub push_icon : PushIconBehavior
  pub repeat : Option ℤ
  pub duration : ℤ
  pub bar : List ℤ
  pub line : List ℤ
  pub autoscale : Option Bool
  pub bar_bc : Text
  pub progress : Option ℤ
  pub progress_c : Text
  pub progress_bc : Text
  pub draw : List DrawInstruction
  pub no_scroll : Bool
  pub scroll_speed : ℤ
  pub effect : Option Effect
  pub effect_settings : Option EffectSettings
  pub overlay : Option OverlayEffect

-- `AppContent::default`.
abbrev pub default_content : AppContent
default_content = record {
  text = none;
  text_case = global_setting;
  top_text = false;
  text_offset = pos 0;
  center = none;
  color = [];
  gradient = [];
  blink_text = pos 0;
  fade_text = pos 0;
  background = [];
  rainbow = false;
  icon = [];
  push_icon = static;
  repeat = none;
  duration = pos 0;
  bar = [];
  line = [];
  autoscale = none;
  bar_bc = [];
  progress = none;
  progress_c = [];
  progress_bc = [];
  draw = [];
  no_scroll = false;
  scroll_speed = pos 0;
  effect = none;
  effect_settings = none;
  overlay = none;
}

pub record Notification : Type 0 where
  pub content : AppContent
  pub hold : Bool
  pub sound : Text
  pub rtttl : Text
  pub loop_sound : Bool
  pub stack : Option Bool
  pub wakeup : Bool
  pub clients : List Text

-- `Notification::default`.
abbrev pub default_notification : Notification
default_notification = record {
  content = default_content;
  hold = false;
  sound = [];
  rtttl = [];
  loop_sound = false;
  stack = none;
  wakeup = false;
  clients = [];
}
