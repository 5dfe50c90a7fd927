-- ===== src/Cli/Given.antt =====
-- src/cli/mod.rs: when there is a test notification.
use awtrix_controller.Prelude.{
  ◌≡◌, ◌↔◌, refl, sym, inl, inr, Bool, false, Option, none, some, List, [], All, ◌∷◌, any, is_some,
  arith, Bool-cases,
}
use mathlib.Core.Option.{none-ne-some}
use awtrix_controller.Cli.{TestNotificationArgs, given_flags, notification, described}

-- No flag was given.
abbrev pub no_args : TestNotificationArgs
no_args = record {
  text = none;
  icon = none;
  duration = none;
  rainbow = none;
  scroll_speed = none;
  no_scroll = none;
  color = none;
  background = none;
  overlay = none;
  effect = none;
  blink_text = none;
  fade_text = none;
  text_case = none;
  top_text = none;
  text_offset = none;
  push_icon = none;
  center = none;
  hold = none;
  sound = none;
  rtttl = none;
  loop_sound = none;
  stack = none;
  wakeup = none;
  repeat = none;
}

none_of : {A : Type 0} (o : Option A) → is_some o ≡ false → o ≡ none
none_of none h = refl
none_of (some a) h = cc

any-none : (bs : List Bool) → any (λ b. b) bs ≡ false → All (λ b. b ≡ false) bs
any-none [] h = tt
any-none (b ∷ bs) h = (ground arith, any-none bs (ground arith))

nothing_given :
    (args : TestNotificationArgs) → any (λ given. given) (given_flags args) ≡ false → args ≡ no_args
unfolding given_flags
nothing_given args h =
    let none_given = any-none (given_flags args) h in
    λ i. record {
      text = none_of args.text none_given.0 i;
      icon = none_of args.icon none_given.1.0 i;
      duration = none_of args.duration none_given.1.1.0 i;
      rainbow = none_of args.rainbow none_given.1.1.1.0 i;
      scroll_speed = none_of args.scroll_speed none_given.1.1.1.1.0 i;
      no_scroll = none_of args.no_scroll none_given.1.1.1.1.1.0 i;
      color = none_of args.color none_given.1.1.1.1.1.1.0 i;
      background = none_of args.background none_given.1.1.1.1.1.1.1.0 i;
      overlay = none_of args.overlay none_given.1.1.1.1.1.1.1.1.0 i;
      effect = none_of args.effect none_given.1.1.1.1.1.1.1.1.1.0 i;
      blink_text = none_of args.blink_text none_given.1.1.1.1.1.1.1.1.1.1.0 i;
      fade_text = none_of args.fade_text none_given.1.1.1.1.1.1.1.1.1.1.1.0 i;
      text_case = none_of args.text_case none_given.1.1.1.1.1.1.1.1.1.1.1.1.0 i;
      top_text = none_of args.top_text none_given.1.1.1.1.1.1.1.1.1.1.1.1.1.0 i;
      text_offset = none_of args.text_offset none_given.1.1.1.1.1.1.1.1.1.1.1.1.1.1.0 i;
      push_icon = none_of args.push_icon none_given.1.1.1.1.1.1.1.1.1.1.1.1.1.1.1.0 i;
      center = none_of args.center none_given.1.1.1.1.1.1.1.1.1.1.1.1.1.1.1.1.0 i;
      hold = none_of args.hold none_given.1.1.1.1.1.1.1.1.1.1.1.1.1.1.1.1.1.0 i;
      sound = none_of args.sound none_given.1.1.1.1.1.1.1.1.1.1.1.1.1.1.1.1.1.1.0 i;
      rtttl = none_of args.rtttl none_given.1.1.1.1.1.1.1.1.1.1.1.1.1.1.1.1.1.1.1.0 i;
      loop_sound = none_of args.loop_sound none_given.1.1.1.1.1.1.1.1.1.1.1.1.1.1.1.1.1.1.1.1.0 i;
      stack = none_of args.stack none_given.1.1.1.1.1.1.1.1.1.1.1.1.1.1.1.1.1.1.1.1.1.0 i;
      wakeup = none_of args.wakeup none_given.1.1.1.1.1.1.1.1.1.1.1.1.1.1.1.1.1.1.1.1.1.1.0 i;
      repeat = none_of args.repeat none_given.1.1.1.1.1.1.1.1.1.1.1.1.1.1.1.1.1.1.1.1.1.1.1.0 i;
    }

-- There is no test notification exactly when none of its flags was given; a flag that is given with an
-- empty value turns it on.
pub notification-no_args :
    (args : TestNotificationArgs) → (notification args ≡ none) ↔ (args ≡ no_args)
unfolding notification given_flags
notification-no_args args = (off, λ e. rw e refl)
  where
    off : notification args ≡ none → args ≡ no_args
    off h = elim (Bool-cases (any (λ given. given) (given_flags args))) [
      | inr n ↦ nothing_given args n
      | inl y ↦ absurd (none-ne-some (described args) (sym (rw (y, notification) at h)))
    ]
