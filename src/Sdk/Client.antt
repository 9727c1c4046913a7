-- ===== src/Sdk/Client.antt =====
-- The client object of frontend/sdk/FeatureFlagClient.ts: its state, and the operations that run
-- without waiting. Listeners and streams are named by numbers; what an operation does to the
-- world (a stream opened or closed, a callback called, the timer) goes to the head of `effects`.
use feature_flag_system.Prelude.{
  ℕ, suc, ◌++◌, ◌∷◌, [], ℤ, pos, Text, Bool, true, false, not, List, Option, none, some, includes,
  leb_ℤ, ltb_ℤ, ltb, ◌==◌, if◌then◌else◌, Dict, get, keep, ◌%◌,
}
use feature_flag_system.Types.{FlagConfig}
use feature_flag_system.Sdk.Hash.{fnv1a32}

pub data ConnectionStatus : Type 0 where
  connecting live reconnecting reconciling offline : ConnectionStatus

abbrev pub same_status : ConnectionStatus → ConnectionStatus → Bool
same_status connecting connecting = true
same_status live live = true
same_status reconnecting reconnecting = true
same_status reconciling reconciling = true
same_status offline offline = true
same_status _ _ = false

pub data Effect : Type 0 where
  opened : ℕ → Effect
  closed : ℕ → Effect
  told_status : ℕ → ConnectionStatus → Effect
  told_update : ℕ → Dict FlagConfig → Effect
  timer_set timer_cleared : Effect

pub record Client : Type 0 where
  pub refresh_interval : Option ℕ
  pub flags : Dict FlagConfig
  pub event_source : Option ℕ
  pub next_source : ℕ
  pub listeners : List ℕ
  pub status_listeners : List ℕ
  pub refresh_timer : Bool
  pub config_version : ℕ
  pub status : ConnectionStatus
  pub is_reconciling : Bool
  pub manually_closed : Bool
  pub effects : List Effect

-- `new FeatureFlagClient(config)`
unfoldable pub new_client : Option ℕ → Client
new_client interval = record {
  refresh_interval = interval;
  flags = [];
  event_source = none;
  next_source = 0;
  listeners = [];
  status_listeners = [];
  refresh_timer = false;
  config_version = 0;
  status = offline;
  is_reconciling = false;
  manually_closed = false;
  effects = [];
}

-- A loop over a set of callbacks, in order.
unfoldable pub call_all : (ℕ → Effect) → List ℕ → List Effect → List Effect
call_all call [] done = done
call_all call (l ∷ ls) done = call_all call ls (call l ∷ done)

unfoldable pub set_status : ConnectionStatus → Client → Client
set_status s c = if same_status c.status s then c else record c {
  status = s;
  effects = call_all (λ l. told_status l s) c.status_listeners c.effects;
}

unfoldable pub notify_listeners : Client → Client
notify_listeners c = record c {
  effects = call_all (λ l. told_update l c.flags) c.listeners c.effects;
}

unfoldable pub close_stream : Client → Client
close_stream c = elim c.event_source [
  | none ↦ c
  | some es ↦ record c { event_source = none; effects = closed es ∷ c.effects }
]

-- `new EventSource(url)` gives a stream that no earlier call gave.
unfoldable pub connect_sse : Client → Client
unfolding close_stream
connect_sse c =
    let c' = close_stream c in
    record c' {
      event_source = some c'.next_source;
      next_source = suc c'.next_source;
      effects = opened c'.next_source ∷ c'.effects;
    }

unfoldable pub disconnect : Client → Client
unfolding close_stream set_status
disconnect c = set_status offline (close_stream (record c { manually_closed = true }))

unfoldable pub reconnect : Client → Client
unfolding connect_sse set_status
reconnect c = connect_sse (set_status reconnecting (record c { manually_closed = false }))

abbrev pub clear_timer : Client → Client
clear_timer c =
    if c.refresh_timer
    then record c { refresh_timer = false; effects = timer_cleared ∷ c.effects }
    else c

unfoldable pub destroy : Client → Client
unfolding close_stream set_status
destroy c =
    set_status offline (record (clear_timer (close_stream (record c { manually_closed = true }))) {
      listeners = [];
      status_listeners = [];
    })

-- `Set.add` and `Set.delete` on callbacks.
abbrev add_callback : ℕ → List ℕ → List ℕ
add_callback l [] = l ∷ []
add_callback l (k ∷ ks) = if k == l then k ∷ ks else k ∷ add_callback l ks

unfoldable pub on_update : ℕ → Client → Client
on_update l c = record c { listeners = add_callback l c.listeners }

unfoldable pub on_status : ℕ → Client → Client
on_status l c = record c { status_listeners = add_callback l c.status_listeners }

-- What the functions that `onUpdate` and `onStatus` return do.
unfoldable pub off_update : ℕ → Client → Client
off_update l c = record c { listeners = keep (λ k. not (k == l)) c.listeners }

unfoldable pub off_status : ℕ → Client → Client
off_status l c = record c { status_listeners = keep (λ k. not (k == l)) c.status_listeners }

is_in_rollout : Text → Text → ℤ → Bool
unfolding fnv1a32
is_in_rollout flag_key user_id percentage =
    if leb_ℤ percentage (pos 0)
    then false
    else if leb_ℤ (pos 100) percentage
    then true
    else ltb_ℤ (pos (fnv1a32 (flag_key ++ b':' ∷ user_id) % 100)) percentage

unfoldable pub is_enabled : Client → Text → Text → Bool
unfolding is_in_rollout
is_enabled c flag_key user_id = elim (get flag_key c.flags) [
  | none ↦ false
  | some flag ↦
      if not flag.enabled
      then false
      else if includes flag.targeted_users user_id
      then true
      else is_in_rollout flag_key user_id flag.rollout_percentage
]

unfoldable pub is_stale : Client → ℕ → Bool
is_stale c server_version = ltb c.config_version server_version
