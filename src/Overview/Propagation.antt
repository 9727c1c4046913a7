-- ===== src/Overview/Propagation.antt =====
-- frontend/components/overview/PropagationHero.tsx: a flip that is followed to the nodes and, over
-- the stream, to this browser. `runFlip` is cut where it waits, and the stream's events and the
-- timer of the Redis beat may run at every cut. `stage` tells where the run waits; the refs of the
-- component and the locals of the run are fields.
pub mod Runs
pub mod View
pub mod Stale
use feature_flag_system.Prelude.{
  ◌≡◌, refl, ◌∷◌, [], ℕ, ◌+◌, ◌-◌, ◌<◌, ◌≤◌, Text, Bool, true, false, not, ◌&&◌, ◌||◌, List, Option,
  none, some, is_none, is_empty, or_else, ltb, leb, ltb_ℤ, ◌==◌, if◌then◌else◌, map, length,
  text_eq, arith, Dict, get, codes, ℤ, pos, parse_int,
}
use feature_flag_system.Cluster.{NodeState}
use feature_flag_system.Cluster.Flip.{
  Phase, idle, running, converged, settled, note_arrivals, pre_max, Poll,
}

pub data StageState : Type 0 where
  resting active done : StageState

pub record NodeLite : Type 0 where
  pub url : Text
  pub id : Text
  pub arrived : Bool
  pub ms : Option ℕ

pub data Narration : Type 0 where
  press_flip sending announced pushed_here every_server_agrees : Narration
  saved : (target : ℕ) → Narration
  catching_up still_propagating : (arrived total target : ℕ) → Narration

-- Where a run waits: for nothing, for the nodes before the change, for the toggle, for a poll.
pub data Stage : Type 0 where
  at_rest reading toggling polling : Stage

pub record Propagation : Type 0 where
  pub urls : List Text
  pub phase : Phase
  pub admin : StageState
  pub postgres : StageState
  pub redis : StageState
  pub browser : StageState
  pub nodes : List NodeLite
  pub browser_ms : Option ℕ
  pub target_version : Option ℕ
  pub narration : Narration
  pub error : Bool
  -- runningRef, t0Ref, targetRef, browserObservedRef
  pub is_running : Bool
  pub t0 : ℕ
  pub target : ℕ
  pub observed : Option ℕ
  -- The locals of the run, and the pending timer of the Redis beat.
  pub stage : Stage
  pub arrival : Dict ℕ
  pub deadline : ℕ
  pub redis_timer : Bool

abbrev fresh_nodes : List Text → List NodeLite
fresh_nodes urls = map (λ url. record { url = url; id = url; arrived = false; ms = none }) urls

unfoldable pub open_page : List Text → Propagation
open_page urls = record {
  urls = urls;
  phase = idle;
  admin = resting;
  postgres = resting;
  redis = resting;
  browser = resting;
  nodes = fresh_nodes urls;
  browser_ms = none;
  target_version = none;
  narration = press_flip;
  error = false;
  is_running = false;
  t0 = 0;
  target = 0;
  observed = none;
  stage = at_rest;
  arrival = [];
  deadline = 0;
  redis_timer = false;
}

-- An event of the stream: its id, and the key in its data if there is one.
pub record Push : Type 0 where
  pub last_event_id : Text
  pub key : Option Text

-- `Number.isFinite(version) && !(version < targetRef.current)`
abbrev pub recent : Option ℤ → ℕ → Bool
recent none target = false
recent (some v) target = not (ltb_ℤ v (pos target))

-- `key && key !== HERO_KEY`
abbrev pub other_key : Option Text → Bool
other_key none = false
other_key (some key) = not (is_empty key) && not (text_eq key (codes "hero-demo"))

unfoldable pub on_update : Push → ℕ → Propagation → Propagation
on_update e now h =
    if not h.is_running || not (is_none h.observed)
    then h
    else if other_key e.key
    then h
    else if not (recent (parse_int e.last_event_id) h.target)
    then h
    else record h {
      observed = some now;
      browser_ms = some (now - h.t0);
      browser = done;
      narration = pushed_here;
    }

-- `runFlip` up to the states of the nodes before the change. The flag may be missing.
unfoldable pub begin_flip : Bool → Propagation → Propagation
begin_flip has_flag h = if h.is_running || not has_flag then h else record h {
  is_running = true;
  error = false;
  phase = running;
  admin = active;
  postgres = resting;
  redis = resting;
  browser = resting;
  browser_ms = none;
  nodes = fresh_nodes h.urls;
  observed = none;
  narration = sending;
  stage = reading;
}

-- The nodes have answered: the target is set, and the toggle is sent.
unfoldable pub send_toggle : ℕ → List NodeState → ℕ → Propagation → Propagation
send_toggle known before now h =
    let target = pre_max known before + 1 in
    record h { target = target; target_version = some target; t0 = now; stage = toggling }

-- The toggle is answered, and the polling starts.
unfoldable pub toggled : ℕ → Propagation → Propagation
toggled now h = record h {
  admin = done;
  postgres = done;
  narration = saved h.target;
  redis_timer = true;
  arrival = [];
  deadline = now + 8000;
  stage = polling;
}

unfoldable pub toggle_failed : Propagation → Propagation
toggle_failed h = record h {
  error = true;
  phase = idle;
  admin = resting;
  narration = press_flip;
  is_running = false;
  stage = at_rest;
}

unfoldable pub redis_beat : Propagation → Propagation
redis_beat h =
    if h.redis_timer
    then record h { redis = done; narration = announced; redis_timer = false }
    else h

-- What follows the loop, by how it ended.
unfoldable pub finish_flip : Bool → Propagation → Propagation
finish_flip has_converged h =
    let h' = record h { redis_timer = false; redis = done; is_running = false; stage = at_rest } in
    if has_converged
    then record h' {
      phase = converged;
      browser_ms = elim h.observed [ none ↦ h.browser_ms | some at ↦ some (at - h.t0) ];
      narration = every_server_agrees;
    }
    else record h' {
      phase = settled;
      narration = still_propagating (length h.arrival) (length h.urls) h.target;
    }

abbrev node_of : Dict ℕ → NodeState → NodeLite
node_of arrival s = record {
  url = s.url;
  id = s.node_id;
  arrived = not (is_none (get s.url arrival));
  ms = get s.url arrival;
}

-- The page after the nodes answered a poll.
unfoldable pub poll_page : Poll → Propagation → Propagation
poll_page p h =
    let noted = note_arrivals h.target (p.seen_at - h.t0) p.states h.arrival in
    let count = length noted.0 in
    let total = length h.urls in
    record h {
      arrival = noted.0;
      nodes = map (node_of noted.0) p.states;
      narration =
          if ltb 0 count && ltb count total then catching_up count total h.target else h.narration;
    }

-- One turn of the loop: the clock is tested, the nodes answer, and the page is updated. The sleep
-- and the request are one wait here: nothing happens between them in the loop.
unfoldable pub poll_nodes : Poll → Propagation → Propagation
unfolding finish_flip poll_page
poll_nodes p h =
    let all_arrived = (note_arrivals h.target (p.seen_at - h.t0) p.states h.arrival).1 in
    if not (ltb p.tested_at h.deadline)
    then finish_flip false h
    else if all_arrived && not (is_none h.observed)
    then finish_flip true (poll_page p h)
    else poll_page p h

-- What can happen to the page. A step of the run does nothing unless the run waits for it.
pub data Happening : Type 0 where
  clicks : Bool → Happening
  answered : (known : ℕ) (before : List NodeState) (now : ℕ) → Happening
  toggle_answered : ℕ → Happening
  toggle_refused beats : Happening
  polls : Poll → Happening
  pushes : Push → ℕ → Happening

abbrev pub same_stage : Stage → Stage → Bool
same_stage at_rest at_rest = true
same_stage reading reading = true
same_stage toggling toggling = true
same_stage polling polling = true
same_stage _ _ = false

abbrev pub when : Stage → (Propagation → Propagation) → Propagation → Propagation
when s f h = if same_stage h.stage s then f h else h

unfoldable pub happen : Happening → Propagation → Propagation
unfolding begin_flip send_toggle toggled toggle_failed redis_beat poll_nodes on_update
happen (clicks has_flag) h = begin_flip has_flag h
happen (answered known before now) h = when reading (send_toggle known before now) h
happen (toggle_answered now) h = when toggling (toggled now) h
happen toggle_refused h = when toggling toggle_failed h
happen beats h = redis_beat h
happen (polls p) h = when polling (poll_nodes p) h
happen (pushes e now) h = on_update e now h

unfoldable pub happen_all : List Happening → Propagation → Propagation
happen_all [] h = h
happen_all (x ∷ xs) h = happen_all xs (happen x h)
