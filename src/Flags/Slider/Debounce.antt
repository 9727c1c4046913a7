-- ===== src/Flags/Slider/Debounce.antt =====
-- The debounce of frontend/components/flags/RolloutSlider.tsx.
use feature_flag_system.Prelude.{
  ◌≡◌, refl, ◌∷◌, [], ℕ, ◌+◌, ◌<◌, ◌≤◌, some, List, ℤ, arith, ap, subst, sym, ◌∙◌,
}
use feature_flag_system.Flags.Form.{FlagForm, handle_submit}
use feature_flag_system.Flags.Slider.{Slider, handle_change, elapse, fire}

-- A drag: values in order, each with the pause before it.
unfoldable pub drag : List (ℕ × ℤ) → Slider → Slider
drag [] s = s
drag ((pause, v) ∷ moves) s = drag moves (handle_change v (elapse pause s))

abbrev pub Quick : List (ℕ × ℤ) → Type 0
Quick [] = Unit
Quick ((pause, v) ∷ moves) = (pause < 200) × Quick moves

-- The value that the slider shows at the end of a drag.
unfoldable pub last_value : ℤ → List (ℕ × ℤ) → ℤ
last_value v [] = v
last_value v ((pause, w) ∷ moves) = last_value w moves

elapse_early :
    (ms due : ℕ) (v : ℤ) (s : Slider)
    → s.timer ≡ some (due, v)
    → s.now + ms < due
    → elapse ms s ≡ record s { now = s.now + ms }
unfolding elapse
elapse_early ms due v s e h = ground arith

elapse_due :
    (ms due : ℕ) (v : ℤ) (s : Slider)
    → s.timer ≡ some (due, v)
    → due ≤ s.now + ms
    → elapse ms s ≡ fire v (record s { now = s.now + ms })
unfolding elapse
elapse_due ms due v s e h = ground arith

-- The state after a move, seen through the fields that a drag does not touch.
drag_step :
    (pause : ℕ) (v w : ℤ) (s : Slider)
    → pause < 200
    → handle_change w (elapse pause (handle_change v s))
      ≡ handle_change w (record s { now = s.now + pause })
unfolding handle_change
drag_step pause v w s h =
    ap (handle_change w) (elapse_early pause (s.now + 200) v (handle_change v s) refl (omega arith))

abbrev IsPending : Slider → List (ℕ × ℤ) → ℤ → Slider → Type 0
IsPending s moves v d =
    (d.form ≡ s.form)
    × (d.timer ≡ some (d.now + 200, last_value v moves))
    × (d.local_value ≡ last_value v moves)

IsPending-drag :
    (moves : List (ℕ × ℤ)) (s : Slider) (v : ℤ)
    → Quick moves
    → IsPending s moves v (drag moves (handle_change v s))
unfolding drag handle_change last_value
IsPending-drag [] s v h = (refl, refl, refl)
IsPending-drag ((pause, w) ∷ moves) s v h =
    subst (λ d. IsPending s moves w (drag moves d)) (sym (drag_step pause v w s h.0))
      (IsPending-drag moves (record s { now = s.now + pause }) w h.1)

-- However the slider is dragged, with pauses under 200 ms, it shows the last value, the form keeps
-- the value that it had, and the form gets the last value once 200 ms have passed.
pub drag_settles :
    (moves : List (ℕ × ℤ)) (s : Slider) (v : ℤ) (wait : ℕ)
    → Quick moves
    → 200 ≤ wait
    → let dragged = drag moves (handle_change v s) in
      (dragged.local_value ≡ last_value v moves)
      × (dragged.form ≡ s.form)
      × ((elapse wait dragged).form ≡ record s.form { rollout_percentage = last_value v moves })
unfolding elapse fire
drag_settles moves s v wait h w =
    let p = IsPending-drag moves s v h in
    (
      p.2,
      p.0,
      ap (λ d. d.form) (elapse_due wait _ _ (drag moves (handle_change v s)) p.1 (omega arith))
          ∙ ap {A = FlagForm} (λ f. record f { rollout_percentage = last_value v moves }) p.0,
    )

-- After a drag whose moves follow one another within less than 200 ms each, a form that is submitted
-- less than 200 ms after the last move submits the percentage from before the drag, although the
-- slider shows the last one.
pub early_submit_stale :
    (moves : List (ℕ × ℤ)) (s : Slider) (v : ℤ) (wait : ℕ)
    → Quick moves
    → wait < 200
    → let dragged = elapse wait (drag moves (handle_change v s)) in
      (dragged.local_value ≡ last_value v moves)
      × (handle_submit dragged.form ≡ handle_submit s.form)
unfolding elapse
early_submit_stale moves s v wait h w =
    let p = IsPending-drag moves s v h in
    let e = elapse_early wait _ _ (drag moves (handle_change v s)) p.1 (omega arith) in
    (ap (λ d. d.local_value) e ∙ p.2, ap handle_submit (ap (λ d. d.form) e ∙ p.0))
