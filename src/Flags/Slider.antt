-- ===== src/Flags/Slider.antt =====
-- frontend/components/flags/RolloutSlider.tsx: the slider shows a change at once and hands it to
-- the form 200 ms after the last one. The clock is part of the state; `timer` is the time at
-- which the pending call of `onChange` runs, with its argument.
pub mod Debounce
use feature_flag_system.Prelude.{
  ◌≡◌, refl, ◌∷◌, [], ℕ, ◌+◌, ◌<◌, ◌≤◌, List, Option, none, some, ℤ, leb, if◌then◌else◌, arith,
}
use feature_flag_system.Flags.Form.{FlagForm, handle_submit}

pub record Slider : Type 0 where
  pub form : FlagForm
  pub local_value : ℤ
  pub timer : Option (ℕ × ℤ)
  pub now : ℕ

unfoldable pub open_slider : FlagForm → Slider
open_slider form = record {
  form = form;
  local_value = form.rollout_percentage;
  timer = none;
  now = 0;
}

unfoldable pub handle_change : ℤ → Slider → Slider
handle_change v s = record s { local_value = v; timer = some (s.now + 200, v) }

-- `onChange`, which is the form's setter. The effect on a new value then copies it back.
unfoldable pub fire : ℤ → Slider → Slider
fire v s = record s {
  form = record s.form { rollout_percentage = v };
  local_value = v;
  timer = none;
}

-- Time passes, and a timer that is due fires.
unfoldable pub elapse : ℕ → Slider → Slider
unfolding fire
elapse ms s =
    let s' = record s { now = s.now + ms } in
    elim s.timer [ none ↦ s' | some t ↦ if leb t.0 (s.now + ms) then fire t.1 s' else s' ]
