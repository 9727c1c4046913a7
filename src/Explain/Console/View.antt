-- ===== src/Explain/Console/View.antt =====
-- What frontend/components/explain/SseConsole.tsx draws. Texts that carry numbers are constructors
-- that keep them; clocks are in milliseconds.
use feature_flag_system.Prelude.{
  ◌≡◌, ◌∷◌, [], ℕ, ◌+◌, ◌-◌, ◌/◌, ◌<◌, ◌≤◌, Text, Bool, not, List, none, some, ℤ, codes,
  if◌then◌else◌, map, ltb, arith,
}
use feature_flag_system.Explain.Console.{
  Entry, Conn, connecting, live, down, Console, Verdict, verdict, empty_note,
}

-- ConnPill: the word and the colour.
pub data PillTone : Type 0 where
  success destructive warning : PillTone

pub record ConnPill : Type 0 where
  pub text : Text
  pub tone : PillTone

unfoldable pub conn_pill : Conn → ConnPill
conn_pill live = record { text = codes "live"; tone = success }
conn_pill down = record { text = codes "down"; tone = destructive }
conn_pill connecting = record { text = codes "connecting"; tone = warning }

-- The labels of the two buttons, which the compact console lacks.
unfoldable pub buttons : Console → List Text
buttons c =
    if c.compact
    then []
    else (if c.paused then codes "Resume feed" else codes "Pause feed") ∷ codes "Clear feed" ∷ []

-- RelTime: "now", seconds or minutes. `Math.max(0, Math.round((now - at) / 1000))` seconds.
pub data RelLabel : Type 0 where
  just_now : RelLabel
  seconds minutes : ℕ → RelLabel

unfoldable pub rel_time : ℕ → ℕ → RelLabel
rel_time now at =
    let s = (now - at + 500) / 1000 in
    if ltb s 2 then just_now else if ltb s 60 then seconds s else minutes (s / 60)

-- EntryRow, with the time that the clock of the row shows.
pub record EntryRow : Type 0 where
  pub version : ℤ
  pub key : Text
  pub verdict : Verdict
  pub age : RelLabel
  pub is_popping : Bool

unfoldable pub entry_row : (reduce_motion : Bool) → ℕ → Entry → EntryRow
entry_row reduce_motion now e = record {
  version = e.version;
  key = e.key;
  verdict = verdict e;
  age = rel_time now e.at;
  is_popping = not reduce_motion;
}

pub data Feed : Type 0 where
  note : Text → Feed
  rows : List EntryRow → Feed

-- The clock of a row is its own state: `clock` gives it by the number of the entry.
unfoldable pub render_feed : (reduce_motion : Bool) → (ℕ → ℕ) → Console → Feed
render_feed reduce_motion clock c = elim (empty_note c) [
  | some text ↦ note text
  | none ↦ rows (map (λ e. entry_row reduce_motion (clock e.seq) e) c.entries)
]

pub record ConsoleView : Type 0 where
  pub pill : ConnPill
  pub buttons : List Text
  pub has_guide : Bool
  pub is_tall : Bool
  pub feed : Feed

unfoldable pub render_console : (reduce_motion : Bool) → (ℕ → ℕ) → Console → ConsoleView
render_console reduce_motion clock c = record {
  pill = conn_pill c.conn;
  buttons = buttons c;
  has_guide = not c.compact;
  is_tall = not c.compact;
  feed = render_feed reduce_motion clock c;
}

-- A row says "now" during the first second and a half after the arrival, and not later.
rel_time-just_now : (now at : ℕ) → now < at + 1500 → rel_time now at ≡ just_now
unfolding rel_time
rel_time-just_now now at h = ground arith

-- A row never counts 60 seconds: from there it counts minutes.
rel_time-minutes :
    (now at : ℕ) → at + 59500 ≤ now → rel_time now at ≡ minutes ((now - at + 500) / 60000)
unfolding rel_time
rel_time-minutes now at h = ground arith
