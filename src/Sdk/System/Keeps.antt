-- ===== src/Sdk/System/Keeps.antt =====
-- What the operations leave alone: all but applying an event keep the flags and their version.
use feature_flag_system.Prelude.{ℕ, ◌≡◌, Bool, true, false, arith}
use feature_flag_system.Sdk.Client.{
  live, Client, ConnectionStatus, set_status, notify_listeners, disconnect, reconnect, destroy,
  on_update, on_status, off_update, off_status,
}
use feature_flag_system.Sdk.Reconcile.{Pending, reconcile, next_page, finish, give_up}
use feature_flag_system.Sdk.Stream.{on_error}
use feature_flag_system.Sdk.System.{Call, run_call}

-- What the flags are, and of which version, stays the same.
pub record Keeps (c d : Client) : Type 0 where
  pub flags : d.flags ≡ c.flags
  pub version : d.config_version ≡ c.config_version

pub set_status-Keeps : (s : ConnectionStatus) (c : Client) → Keeps c (set_status s c)
unfolding set_status
set_status-Keeps s c = ground arith

pub run_call-Keeps : (op : Call) (c : Client) → Keeps c (run_call op c)
unfolding disconnect reconnect destroy on_update on_status off_update off_status
run_call-Keeps op c = ground arith

pub on_error-Keeps : (es : ℕ) (b : Bool) (c : Client) → Keeps c (on_error es b c)
unfolding on_error set_status
on_error-Keeps es b c = ground arith

pub finish-Keeps : (changed : Bool) (c : Client) → Keeps c (finish changed c)
unfolding finish set_status notify_listeners
finish-Keeps changed c = ground arith

pub give_up-Keeps : (s : ConnectionStatus) (c : Client) → Keeps c (give_up s c)
unfolding give_up set_status
give_up-Keeps s c = ground arith

pub reconcile-Keeps : (c : Client) → Keeps c (reconcile c).0
unfolding reconcile set_status
reconcile-Keeps c = ground arith

pub next_page-Keeps : (p : Pending) (r : Client × Bool × Bool) → Keeps r.0 (next_page p r).0
unfolding next_page finish set_status notify_listeners
next_page-Keeps p (c, changed, false) = ground arith
next_page-Keeps p (c, changed, true) = ground arith

pub notify-Keeps : (c : Client) → Keeps c (notify_listeners (set_status live c))
unfolding set_status notify_listeners
notify-Keeps c = ground arith
