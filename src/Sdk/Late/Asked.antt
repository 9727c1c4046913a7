-- ===== src/Sdk/Late/Asked.antt =====
-- The version from which a replay of frontend/sdk/FeatureFlagClient.ts asks.
use feature_flag_system.Prelude.{
  ◌≡◌, ℤ, pos, negsuc, Bool, true, false, [], ◌∷◌, Option, none, some, Dict, arith,
}
use feature_flag_system.Types.{FlagConfig}
use feature_flag_system.Sdk.Client.{Client}
use feature_flag_system.Sdk.Reconcile.{
  Pending, Page, thrown, refused, events, reconcile, reconcile_page, next_page, apply_page,
}
use feature_flag_system.Sdk.Stream.{Message, flag_updated, flag_deleted, on_message, apply_event}
use feature_flag_system.Sdk.System.Keeps.{reconcile-Keeps}

-- A run that waits for an answer has asked from the client's version.
abbrev pub IsFresh : Client × Option Pending → Type 0
IsFresh r = (q : Pending) → r.1 ≡ some q → q.since ≡ r.0.config_version

pub reconcile-IsFresh : (c : Client) → IsFresh (reconcile c)
unfolding reconcile
reconcile-IsFresh c q h = ground (arith, (reconcile-Keeps c).version)

apply_event-IsFresh :
    (v : ℤ) (change : Dict FlagConfig → Dict FlagConfig) (c : Client)
    → IsFresh (apply_event v change c)
unfolding apply_event
apply_event-IsFresh (negsuc n) change c q h = absurd (cc h)
apply_event-IsFresh (pos v) change c q h = ground (arith, reconcile-IsFresh c q)

pub on_message-IsFresh : (m : Message) (c : Client) → IsFresh (on_message m c)
unfolding on_message
on_message-IsFresh (flag_updated i none) c q h = absurd (cc h)
on_message-IsFresh (flag_updated i (some f)) c q h = apply_event-IsFresh _ _ c q h
on_message-IsFresh (flag_deleted i none) c q h = absurd (cc h)
on_message-IsFresh (flag_deleted i (some k)) c q h = apply_event-IsFresh _ _ c q h

next_page-IsFresh : (p : Pending) (r : Client × Bool × Bool) → IsFresh (next_page p r)
unfolding next_page
next_page-IsFresh p (c, changed, false) q h = absurd (cc h)
next_page-IsFresh p (c, changed, true) q h = ground arith

pub reconcile_page-IsFresh :
    (page : Page) (p : Pending) (c : Client) → IsFresh (reconcile_page page p c)
unfolding reconcile_page
reconcile_page-IsFresh thrown p c q h = absurd (cc h)
reconcile_page-IsFresh refused p c q h = absurd (cc h)
reconcile_page-IsFresh (events []) p c q h = absurd (cc h)
reconcile_page-IsFresh (events (e ∷ es)) p c q h =
    next_page-IsFresh p (apply_page (e ∷ es) c p.changed false) q h
