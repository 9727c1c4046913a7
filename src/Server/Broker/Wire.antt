-- ===== src/Server/Broker/Wire.antt =====
-- The way of a change from the write to the client: backend/internal/sse/wire.go, which takes an
-- envelope through Redis to the broker of every node, the frame of the broker, and the listeners
-- of frontend/sdk/FeatureFlagClient.ts and frontend/lib/sse.ts.
use mathlib.Core.List.{Memᴰ}
use feature_flag_system.Prelude.{
  Bool, ℕ, ◌<◌, Text, true, List, [], ◌∷◌, Option, none, some, ◌≡◌, ◌≢◌, refl, sym, ap, arith, ltb,
  if◌then◌else◌, codes, decimal, All, subst, text_eq, parse_int-decimal, inl, inr,
}
use feature_flag_system.Types.{
  Flag, FlagConfig, FlagEvent, EventType, created, updated, deleted, as_config,
}
use feature_flag_system.Sdk.Stream.{Message, flag_updated, flag_deleted, on_message}
use feature_flag_system.Sdk.Log.{Above}
use feature_flag_system.Sdk.Log.Next.{Above-mem}
use feature_flag_system.Sdk.System.{System, Step, receive, message_of, after_callback}
use feature_flag_system.Sdk.System.{frame as message_frame}
use feature_flag_system.Flags.Queries.{
  CachedQuery, Key, Change, pushed_update, pushed_delete, changed,
}
use feature_flag_system.Flags.Queries.Fetches.{change_fetches}
use feature_flag_system.Flags.Live.{heard_change}
use feature_flag_system.Server.{Store, empty_store, to_config}
use feature_flag_system.Server.Service
use feature_flag_system.Server.Service.{Envelope, Write, run_write, run_writes, published_by}
use feature_flag_system.Server.Announced.{
  IsAnnounced, is_empty_update, envelope_of, envelope_as, write-IsAnnounced,
}
use feature_flag_system.Server.Rows.{get_by_id-All}
use feature_flag_system.Server.Sound.{IsSound, IsLogged, Mem-last}
use feature_flag_system.Server.Sound.Writes.{run_write-IsNext, run_writes-IsSound}
use feature_flag_system.Server.Broker.{SseEvent, Frame, frame}

-- The JSON encoder of Go and the parser of the browser are parameters.
module _ (flag_json : FlagConfig → Text) (key_json : Text → Text) where
  -- `Publish` and `Subscribe`: the envelope that a write publishes, as `Broadcast` gets it.
  unfoldable pub to_event : Envelope → SseEvent
  to_event (Service.flag_updated v f) = record {
    event = codes "flag_updated";
    payload = flag_json f;
    version = v;
  }
  to_event (Service.flag_deleted v key) = record {
    event = codes "flag_deleted";
    payload = key_json key;
    version = v;
  }

  -- The loop of `Subscribe`: a message that is no envelope, `none`, is passed over.
  unfoldable pub subscribe : List (Option Envelope) → List SseEvent
  subscribe [] = []
  subscribe (none ∷ ms) = subscribe ms
  subscribe (some p ∷ ms) = to_event p ∷ subscribe ms

module _ (read_flag : Text → Option FlagConfig) (read_key : Text → Option Text) where
  -- What the browser's `EventSource` makes of a frame for the two listeners. A frame without an id
  -- leaves the last one; an event that nobody listens to, and a comment, give nothing.
  unfoldable pub listen : (last_event_id : Text) → Frame → Option Message
  listen last (frame e) =
      let id = if ltb 0 e.version then decimal e.version else last in
      if text_eq e.event (codes "flag_updated")
      then some (flag_updated id (read_flag e.payload))
      else if text_eq e.event (codes "flag_deleted")
      then some (flag_deleted id (read_key e.payload))
      else none
  listen last f = none

-- The versions of an ascending log are above 0.
Above-pos : (lo : ℕ) (e : FlagEvent) (es : List FlagEvent) → Above lo es → Memᴰ e es → 0 < e.version
Above-pos lo e es u m = omega (arith, Above-mem lo e es u m)

-- Every active query of the flags is fetched again by the listeners of `useSSE`.
abbrev pub Refetches : Message → Type 0
Refetches m =
    (c : Change) × (heard_change m ≡ some c)
    × ((cache : List CachedQuery) (q : CachedQuery) (rest : Key)
        → Memᴰ q cache
        → q.is_active ≡ true
        → q.key ≡ codes "flags" ∷ rest
        → Memᴰ q.key (changed c cache).1)

frame-Refetches : (t : EventType) (id : Text) (e : FlagEvent) → Refetches (message_frame t id e)
unfolding heard_change
frame-Refetches created id e = (
  pushed_update,
  refl,
  (λ cache q rest. change_fetches cache pushed_update q rest (λ x. cc x) (λ x. cc x)),
)
frame-Refetches updated id e = (
  pushed_update,
  refl,
  (λ cache q rest. change_fetches cache pushed_update q rest (λ x. cc x) (λ x. cc x)),
)
frame-Refetches deleted id e = (
  pushed_delete,
  refl,
  (λ cache q rest. change_fetches cache pushed_delete q rest (λ x. cc x) (λ x. cc x)),
)

module _ (flag_json : FlagConfig → Text) (key_json : Text → Text)
    (read_flag : Text → Option FlagConfig) (read_key : Text → Option Text) where
  -- What a listener makes of an envelope, sent as a frame.
  abbrev pub heard : Text → Envelope → Option Message
  heard last p = listen read_flag read_key last (frame (to_event flag_json key_json p))

  -- An envelope reaches a listener as a message; what the client of the SDK then does is a step of
  -- its system, and a page of the dashboard fetches its flags again.
  abbrev pub IsHeard : Text → List FlagEvent → Envelope → Type 0
  IsHeard last es p =
      (m : Message) × (heard last p ≡ some m)
      × ((s : System) → s.log ≡ es → Step s (after_callback s (on_message m s.client)))
      × Refetches m

  module _ (flag_read : (f : FlagConfig) → read_flag (flag_json f) ≡ some f)
      (key_read : (k : Text) → read_key (key_json k) ≡ some k) where
    heard-update :
        (last : Text) (v : ℕ) (f : FlagConfig)
        → 0 < v
        → heard last (Service.flag_updated v f) ≡ some (flag_updated (decimal v) (some f))
    unfolding listen to_event text_eq
    heard-update last v f h = rw (flag_read f) (ground arith)

    heard-delete :
        (last : Text) (v : ℕ) (k : Text)
        → 0 < v
        → heard last (Service.flag_deleted v k) ≡ some (flag_deleted (decimal v) (some k))
    unfolding listen to_event text_eq
    heard-delete last v k h = rw (key_read k) (ground arith)

    heard-event :
        (last : Text) (e : FlagEvent)
        → 0 < e.version
        → heard last (envelope_of e) ≡ some (message_of (decimal e.version) e)
    heard-event last e h = go e.event_type
      where
        go :
            (t : EventType)
            → heard last (envelope_as t e) ≡ some (message_frame t (decimal e.version) e)
        go created = heard-update last e.version (as_config e.payload) h
        go updated = heard-update last e.version (as_config e.payload) h
        go deleted = heard-delete last e.version e.flag_key h

    -- The envelope of a row as it stands is that of the event that wrote it.
    row_envelope :
        (es : List FlagEvent) (r : Flag)
        → IsLogged es r
        → (e : FlagEvent) × Memᴰ e es
          × (Service.flag_updated r.version (to_config r) ≡ envelope_of e)
    row_envelope es r (e, m, v, n, p) = (e, m, go e.event_type n)
      where
        go :
            (t : EventType)
            → t ≢ deleted
            → Service.flag_updated r.version (to_config r) ≡ envelope_as t e
        go created x = cc (sym v, sym (ap as_config p))
        go updated x = cc (sym v, sym (ap as_config p))
        go deleted x = absurd (x refl)

    logged-IsHeard :
        (last : Text) (es : List FlagEvent) (e : FlagEvent)
        → Above 0 es
        → Memᴰ e es
        → IsHeard last es (envelope_of e)
    logged-IsHeard last es e up m = (
      message_of (decimal e.version) e,
      heard-event last e (Above-pos 0 e es up m),
      (λ s same.
          receive e (decimal e.version) (subst (Memᴰ e) (sym same) m)
            (parse_int-decimal e.version)),
      frame-Refetches e.event_type (decimal e.version) e,
    )

    -- Nothing is published by a write but what one of the rules above accounts for.
    announced-IsHeard :
        (idle : Bool) (last : Text) (s t : Store) (ps : List Envelope)
        → IsSound s
        → IsSound t
        → IsAnnounced idle s t ps
        → All (IsHeard last t.events) ps
    announced-IsHeard idle last s t ps i j (inr (e, grown, told)) =
        subst (All (IsHeard last t.events)) (sym told) (
          logged-IsHeard last t.events e j.ascends
              (subst (Memᴰ e) (sym grown) (Mem-last e s.events)),
          tt,
        )
    announced-IsHeard idle last s t ps i j (inl same) =
        subst (λ es. All (IsHeard last es) ps) (sym same.same_events)
          (elim same.no_news [
            | inl none_told ↦ subst (All (IsHeard last s.events)) (sym none_told) tt
            | inr (asked, f, found, told) ↦
                let row = get_by_id-All (IsLogged s.events) f.id s.flags f i.logged found in
                let (e, m, equal) = row_envelope s.events f row in
                subst (All (IsHeard last s.events)) (sym told) (
                  subst (IsHeard last s.events) (sym equal)
                      (logged-IsHeard last s.events e i.ascends m),
                  tt,
                )
          ])

    -- Whatever writes came before, and whatever envelope a write then publishes: once the broker has
    -- framed it and the browser has it before a listener, under whatever last id, the callback of
    -- the SDK client that runs is the `receive` step of the client's system, for an event that the
    -- server's log has; and a page of the dashboard that listens fetches every active query of the
    -- flags again. This is for a JSON parser that reads what the encoder wrote.
    pub published-IsHeard :
        (ws : List Write) (w : Write) (last : Text)
        → let s = run_writes ws empty_store in
          All (IsHeard last (run_write w s).events) (published_by w s)
    published-IsHeard ws w last =
        let s = run_writes ws empty_store in
        let i = run_writes-IsSound ws in
        announced-IsHeard (is_empty_update w) last s (run_write w s) (published_by w s) i
          (run_write-IsNext w s i).sound (write-IsAnnounced s w)
