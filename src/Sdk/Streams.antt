-- ===== src/Sdk/Streams.antt =====
-- The streams of frontend/sdk/FeatureFlagClient.ts: how many were opened and closed.
use feature_flag_system.Prelude.{
  true, false, ℕ, suc, ◌+◌, ◌≡◌, refl, ◌∷◌, [], List, Option, none, some, arith,
}
use feature_flag_system.Sdk.Client.{
  Client, ConnectionStatus, Effect, opened, closed, told_status, clear_timer, offline, connecting,
  reconnecting, new_client, call_all, set_status, close_stream, connect_sse, disconnect, reconnect,
  destroy, on_update, on_status, off_update, off_status,
}
use feature_flag_system.Sdk.Init.{Snapshot, thrown, refused, snapshot, init, init_rest, bootstrap}
use feature_flag_system.Sdk.System.{
  Call, run_call, to_disconnect, to_reconnect, to_destroy, listen_update, listen_status,
  unlisten_update, unlisten_status,
}

abbrev pub count_opened : List Effect → ℕ
count_opened [] = 0
count_opened (opened es ∷ effects) = suc (count_opened effects)
count_opened (_ ∷ effects) = count_opened effects

abbrev pub count_closed : List Effect → ℕ
count_closed [] = 0
count_closed (closed es ∷ effects) = suc (count_closed effects)
count_closed (_ ∷ effects) = count_closed effects

abbrev held : Option ℕ → ℕ
held none = 0
held (some es) = 1

-- Every stream ever opened was closed again, but for the one that the client holds.
abbrev pub IsBalanced : Client → Type 0
IsBalanced c = count_opened c.effects ≡ count_closed c.effects + held c.event_source

told_opened :
    (s : ConnectionStatus) (ls : List ℕ) (es : List Effect)
    → count_opened (call_all (λ l. told_status l s) ls es) ≡ count_opened es
unfolding call_all
told_opened s [] es = refl
told_opened s (l ∷ ls) es = told_opened s ls (told_status l s ∷ es)

told_closed :
    (s : ConnectionStatus) (ls : List ℕ) (es : List Effect)
    → count_closed (call_all (λ l. told_status l s) ls es) ≡ count_closed es
unfolding call_all
told_closed s [] es = refl
told_closed s (l ∷ ls) es = told_closed s ls (told_status l s ∷ es)

set_status-IsBalanced :
    (s : ConnectionStatus) (c : Client) → IsBalanced c → IsBalanced (set_status s c)
unfolding set_status
set_status-IsBalanced s c h =
    ground (
      arith,
      told_opened s c.status_listeners c.effects,
      told_closed s c.status_listeners c.effects,
    )

close_stream-IsBalanced : (c : Client) → IsBalanced c → IsBalanced (close_stream c)
unfolding close_stream
close_stream-IsBalanced c h = ground arith

connect_sse-IsBalanced : (c : Client) → IsBalanced c → IsBalanced (connect_sse c)
unfolding connect_sse
connect_sse-IsBalanced c h = ground arith

disconnect-IsBalanced : (c : Client) → IsBalanced c → IsBalanced (disconnect c)
disconnect-IsBalanced c h =
    unfold disconnect in
    set_status-IsBalanced offline (close_stream (record c { manually_closed = true }))
      (close_stream-IsBalanced (record c { manually_closed = true }) h)

reconnect-IsBalanced : (c : Client) → IsBalanced c → IsBalanced (reconnect c)
reconnect-IsBalanced c h =
    unfold reconnect in
    connect_sse-IsBalanced (set_status reconnecting (record c { manually_closed = false }))
      (set_status-IsBalanced reconnecting (record c { manually_closed = false }) h)

destroy-IsBalanced : (c : Client) → IsBalanced c → IsBalanced (destroy c)
unfolding destroy
destroy-IsBalanced c h =
    let d = close_stream (record c { manually_closed = true }) in
    let balanced = close_stream-IsBalanced (record c { manually_closed = true }) h in
    set_status-IsBalanced offline (record (clear_timer d) { listeners = []; status_listeners = [] })
      (ground (arith, balanced))

-- Whatever a caller does keeps the streams balanced.
run_call-IsBalanced : (op : Call) (c : Client) → IsBalanced c → IsBalanced (run_call op c)
run_call-IsBalanced to_disconnect c h = disconnect-IsBalanced c h
run_call-IsBalanced to_reconnect c h = reconnect-IsBalanced c h
run_call-IsBalanced to_destroy c h = destroy-IsBalanced c h
run_call-IsBalanced (listen_update l) c h = unfold on_update in h
run_call-IsBalanced (listen_status l) c h = unfold on_status in h
run_call-IsBalanced (unlisten_update l) c h = unfold off_update in h
run_call-IsBalanced (unlisten_status l) c h = unfold off_status in h

abbrev pub run_calls : List Call → Client → Client
run_calls [] c = c
run_calls (op ∷ ops) c = run_calls ops (run_call op c)

run_calls-IsBalanced : (ops : List Call) (c : Client) → IsBalanced c → IsBalanced (run_calls ops c)
run_calls-IsBalanced [] c h = h
run_calls-IsBalanced (op ∷ ops) c h =
    run_calls-IsBalanced ops (run_call op c) (run_call-IsBalanced op c h)

init_rest-IsBalanced :
    (answer : Snapshot) (c : Client) → IsBalanced c → IsBalanced (init_rest answer c).0
unfolding init_rest bootstrap connect_sse
init_rest-IsBalanced thrown c h = h
init_rest-IsBalanced refused c h = h
init_rest-IsBalanced (snapshot flags version) c h = ground arith

init-IsBalanced : (interval : Option ℕ) → IsBalanced (init (new_client interval))
unfolding init new_client
init-IsBalanced interval = set_status-IsBalanced connecting (new_client interval) refl

-- No stream leaks: a new client is initialised, and whatever its caller does while the snapshot
-- is under way and after it came (or failed), with however many reconnects, each stream opened
-- has been closed, but for the one that the client holds, if it holds one.
pub streams-IsBalanced :
    (interval : Option ℕ) (answer : Snapshot) (before later : List Call)
    → IsBalanced
        (run_calls later (init_rest answer (run_calls before (init (new_client interval)))).0)
streams-IsBalanced interval answer before later =
    let fresh = new_client interval in
    let known = run_calls before (init fresh) in
    run_calls-IsBalanced later (init_rest answer known).0 (
      init_rest-IsBalanced answer known
        (run_calls-IsBalanced before (init fresh) (init-IsBalanced interval)))
