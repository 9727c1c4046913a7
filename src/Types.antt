-- ===== src/Types.antt =====
-- frontend/types/flag.ts: the data that the dashboard, the SDK and the API exchange.
-- Percentages are integers of either sign; ids, keys and user ids are texts; a time stamp is the
-- text that the server wrote.
use feature_flag_system.Prelude.{ℕ, ℤ, pos, Text, Bool, false, List, [], Option}

pub record Flag : Type 0 where
  pub id : Text
  pub key : Text
  pub description : Text
  pub enabled : Bool
  pub rollout_percentage : ℤ
  pub targeted_users : List Text
  pub version : ℕ
  pub created_at : Text
  pub updated_at : Text

pub record CreateFlagInput : Type 0 where
  pub key : Text
  pub description : Text
  pub enabled : Bool
  pub rollout_percentage : ℤ
  pub targeted_users : List Text

-- Each field may be left out.
pub record UpdateFlagInput : Type 0 where
  pub description : Option Text
  pub enabled : Option Bool
  pub rollout_percentage : Option ℤ
  pub targeted_users : Option (List Text)

pub record FlagsResponse : Type 0 where
  pub flags : List Flag
  pub config_version : ℕ

pub record FlagConfig : Type 0 where
  pub id : Text
  pub key : Text
  pub description : Text
  pub enabled : Bool
  pub rollout_percentage : ℤ
  pub targeted_users : List Text
  pub version : ℕ

-- The two shapes of `payload` that the server writes: the whole flag, and for a deletion its id
-- and key alone.
pub data Payload : Type 0 where
  full : FlagConfig → Payload
  stub : (id key : Text) → Payload

pub data EventType : Type 0 where
  created updated deleted : EventType

pub record FlagEvent : Type 0 where
  pub version : ℕ
  pub event_type : EventType
  pub flag_key : Text
  pub payload : Payload
  pub created_at : Text

-- `ev.payload as unknown as FlagConfig`. The fields that a stub lacks are undefined, and read as
-- false, zero or nothing.
abbrev pub as_config : Payload → FlagConfig
as_config (full f) = f
as_config (stub id key) = record {
  id = id;
  key = key;
  description = [];
  enabled = false;
  rollout_percentage = pos 0;
  targeted_users = [];
  version = 0;
}
