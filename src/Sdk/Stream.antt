-- ===== src/Sdk/Stream.antt =====
-- The stream's callbacks of frontend/sdk/FeatureFlagClient.ts: `onopen`, the two event listeners
-- and `onerror`, with `eventVersion` and `applyEvent`. The second result is a reconciliation that
-- the callback started.
pub mod Live
use feature_flag_system.Prelude.{
  ◌+◌, ℕ, ◌==◌, ℤ, pos, negsuc, Text, Bool, Option, none, some, leb, ltb, if◌then◌else◌, parse_int,
  Dict, set, remove,
}
use feature_flag_system.Types.{FlagConfig}
use feature_flag_system.Sdk.Client.{Client, live, reconnecting, set_status, notify_listeners}
use feature_flag_system.Sdk.Reconcile.{Pending, reconcile}

-- `JSON.parse(e.data)`, with `none` where it throws, beside `e.lastEventId`.
pub data Message : Type 0 where
  flag_updated : (last_event_id : Text) → Option FlagConfig → Message
  flag_deleted : (last_event_id : Text) → Option Text → Message

unfoldable pub event_version : Client → Text → ℤ
event_version c last_event_id = elim (parse_int last_event_id) [
  | none ↦ pos (c.config_version + 1)
  | some v ↦ v
]

-- Versions at hand are not negative, so a negative one is stale.
unfoldable pub apply_event :
    ℤ → (Dict FlagConfig → Dict FlagConfig) → Client → Client × Option Pending
apply_event (negsuc n) mutate c = (c, none)
apply_event (pos version) mutate c =
    if leb version c.config_version
    then (c, none)
    else if ltb (c.config_version + 1) version
    then reconcile c
    else (
      notify_listeners
          (set_status live (record c { flags = mutate c.flags; config_version = version })),
      none,
    )

unfoldable pub on_message : Message → Client → Client × Option Pending
on_message (flag_updated i none) c = (c, none)
on_message (flag_updated i (some flag)) c = apply_event (event_version c i) (set flag.key flag) c
on_message (flag_deleted i none) c = (c, none)
on_message (flag_deleted i (some key)) c = apply_event (event_version c i) (remove key) c

unfoldable pub on_open : Client → Client × Option Pending
on_open c = reconcile c

-- `readyState === CLOSED && this.eventSource === es`
unfoldable pub close_stream_if_closed : ℕ → Bool → Client → Client
close_stream_if_closed es is_closed c = elim c.event_source [
  | none ↦ c
  | some current ↦
      if is_closed then (if current == es then record c { event_source = none } else c) else c
]

unfoldable pub on_error : ℕ → Bool → Client → Client
unfolding close_stream_if_closed
on_error es is_closed c =
    if c.manually_closed then c else set_status reconnecting (close_stream_if_closed es is_closed c)
