-- ===== src/Explain/Console.antt =====
-- frontend/components/explain/SseConsole.tsx: the feed of flag events, newest first. A frame
-- carries its `lastEventId` and its data, parsed if it parses; `JSON.parse` is not modelled.
pub mod View
pub mod Feed
use feature_flag_system.Prelude.{
  ◌≡◌, refl, ◌∷◌, [], ℕ, zero, suc, ◌+◌, ◌-◌, ◌/◌, ◌≤◌, ◌<◌, max, Text, Bool, true, false, not,
  ◌&&◌, List, Option, none, some, ℤ, pos, codes, is_empty, parse_int, or_else, if◌then◌else◌, take,
  length, ltb, leb, ltb_ℤ, is_none, arith,
}

pub data EntryKind : Type 0 where
  on off deleted : EntryKind

pub record Entry : Type 0 where
  pub seq : ℕ
  pub version : ℤ
  pub key : Text
  pub kind : EntryKind
  pub rollout : Option ℤ
  pub at : ℕ

pub data Conn : Type 0 where
  connecting live down : Conn

pub record Console : Type 0 where
  pub compact : Bool
  pub entries : List Entry
  pub conn : Conn
  pub paused : Bool
  pub seq : ℕ

-- The fields of the data that are read; each may be missing or of another type.
pub record FrameData : Type 0 where
  pub key : Option Text
  pub enabled : Bool
  pub rollout_percentage : Option ℤ

pub record Frame : Type 0 where
  pub last_event_id : Text
  pub parsed : Option FrameData

-- MAX_FULL and MAX_COMPACT
abbrev pub limit : Bool → ℕ
limit compact = if compact then 6 else 60

unfoldable pub open_console : Bool → Console
open_console compact = record {
  compact = compact;
  entries = [];
  conn = connecting;
  paused = false;
  seq = 0;
}

unfoldable pub on_open : Console → Console
on_open c = record c { conn = live }

unfoldable pub on_error : Console → Console
on_error c = record c { conn = elim c.conn [ live ↦ down | _ ↦ connecting ] }

abbrev frame_key : Option FrameData → Text
frame_key none = codes "(unknown)"
frame_key (some d) = elim d.key [
  | none ↦ codes "(unknown)"
  | some key ↦ if is_empty key then codes "(unknown)" else key
]

abbrev frame_enabled : Option FrameData → Bool
frame_enabled none = false
frame_enabled (some d) = d.enabled

abbrev frame_rollout : Option FrameData → Option ℤ
frame_rollout none = none
frame_rollout (some d) = d.rollout_percentage

-- The kind that is shown: `deletion` tells which of the two listeners was called.
abbrev pub resolved_kind : Bool → Option FrameData → EntryKind
resolved_kind deletion d = if deletion then deleted else if frame_enabled d then on else off

unfoldable pub entry_of : Bool → Frame → ℕ → ℕ → Entry
entry_of deletion e seq now =
    let kind = resolved_kind deletion e.parsed in
    record {
      seq = seq;
      version = or_else (parse_int e.last_event_id) (pos 0);
      key = frame_key e.parsed;
      kind = kind;
      rollout = elim kind [ on ↦ frame_rollout e.parsed | _ ↦ none ];
      at = now;
    }

unfoldable pub push : Bool → Frame → ℕ → Console → Console
unfolding entry_of
push deletion e now c = if c.paused then c else record c {
  entries = take (limit c.compact) (entry_of deletion e c.seq now ∷ c.entries);
  seq = suc c.seq;
}

-- The two buttons, which the compact console lacks.
unfoldable pub toggle_paused : Console → Console
toggle_paused c = if c.compact then c else record c { paused = not c.paused }

unfoldable pub clear : Console → Console
clear c = if c.compact then c else record c { entries = [] }

-- What happens to a console.
pub data Happening : Type 0 where
  opens errors clicks_pause clicks_clear : Happening
  update deletion : Frame → ℕ → Happening

unfoldable pub happen : Happening → Console → Console
unfolding on_open on_error push toggle_paused clear
happen opens c = on_open c
happen errors c = on_error c
happen clicks_pause c = toggle_paused c
happen clicks_clear c = clear c
happen (update e now) c = push false e now c
happen (deletion e now) c = push true e now c

unfoldable pub happen_all : List Happening → Console → Console
happen_all [] c = c
happen_all (h ∷ hs) c = happen_all hs (happen h c)

-- The text in place of an empty feed.
unfoldable pub empty_note : Console → Option Text
empty_note c = elim c.entries [
  | _ ∷ _ ↦ none
  | [] ↦ some (elim c.conn [
    | down ↦ codes "Stream disconnected — is the stack running on :8080?"
    | _ ↦ codes "Waiting for the next change… flip a flag to see it appear here live."
  ])
]

-- What a row says of the verdict; the percentage is shown below 100 only.
pub data Verdict : Type 0 where
  was_deleted turned_off : Verdict
  turned_on : Option ℤ → Verdict

unfoldable pub verdict : Entry → Verdict
verdict entry = elim entry.kind [
  | deleted ↦ was_deleted
  | off ↦ turned_off
  | on ↦
      turned_on
        (elim entry.rollout [ none ↦ none | some p ↦ if ltb_ℤ p (pos 100) then some p else none ])
]
