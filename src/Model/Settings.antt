-- ===== src/Model/Settings.antt =====
-- src/model/settings.rs and src/model/enums.rs: the settings payload.
use awtrix_controller.Prelude.{Bool, false, Option, none, List, []}
use awtrix_controller.Prelude.Int.{ℤ, pos}
use awtrix_controller.Prelude.Text.{Text}
use awtrix_controller.Model.Enums.{OverlayEffect}
use awtrix_controller.Model.Open.TimeFormat.{TimeFormat}
use awtrix_controller.Model.Open.DateFormat.{DateFormat}

pub data TransitionEffect : Type 0 where
  random slide dim zoom rotate pixelate curtain ripple blink reload fade : TransitionEffect

pub data ClockMode : Type 0 where
  weekday_bar calendar calendar_top calendar_alt calendar_alt_top big_time binary : ClockMode

pub record Settings : Type 0 where
  pub ch_col : Text
  pub cb_col : Text
  pub wdca : Text
  pub wdci : Text
  pub time_col : Text
  pub date_col : Text
  pub bri : Option ℤ
  pub abri : Option Bool
  pub atime : ℤ
  pub teff : Option TransitionEffect
  pub tspeed : ℤ
  pub tcol : Text
  pub tmode : Option ClockMode
  pub ctcol : Text
  pub wd : Option Bool
  pub atrans : Option Bool
  pub ccorrection : List ℤ
  pub ctemp : List ℤ
  pub tformat : Option TimeFormat
  pub dformat : Option DateFormat
  pub som : Option Bool
  pub cel : Option Bool
  pub blockn : Bool
  pub uppercase : Option Bool
  pub temp_col : Text
  pub hum_col : Text
  pub bat_col : Text
  pub sspeed : ℤ
  pub tim : Option Bool
  pub dat : Option Bool
  pub show_hum : Option Bool
  pub show_temp : Option Bool
  pub show_bat : Option Bool
  pub matp : Option Bool
  pub vol : ℤ
  pub overlay : Option OverlayEffect

-- `Settings::default`.
abbrev pub default_settings : Settings
default_settings = record {
  ch_col = [];
  cb_col = [];
  wdca = [];
  wdci = [];
  time_col = [];
  date_col = [];
  bri = none;
  abri = none;
  atime = pos 0;
  teff = none;
  tspeed = pos 0;
  tcol = [];
  tmode = none;
  ctcol = [];
  wd = none;
  atrans = none;
  ccorrection = [];
  ctemp = [];
  tformat = none;
  dformat = none;
  som = none;
  cel = none;
  blockn = false;
  uppercase = none;
  temp_col = [];
  hum_col = [];
  bat_col = [];
  sspeed = pos 0;
  tim = none;
  dat = none;
  show_hum = none;
  show_temp = none;
  show_bat = none;
  matp = none;
  vol = pos 0;
  overlay = none;
}
