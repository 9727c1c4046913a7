-- ===== src/Cluster/Flip.antt =====
-- `runFlip` of frontend/components/cluster/ClusterHero.tsx: flip a flag, then poll the nodes until
-- all have the new version or 8 seconds are over. What a poll sees and when is a parameter: each
-- element of `polls` is the time at which the loop tests the clock, the node states that it then
-- fetches and the time at which it looks at them. A run of the loop has a last poll because the
-- clock passes the deadline; `polls` is long enough when its last time does.
pub mod Outcome
pub mod View
use feature_flag_system.Prelude.{
  ◌≡◌, refl, ◌∷◌, [], ◌++◌, ℕ, suc, ◌+◌, ◌-◌, ◌<◌, ◌≤◌, max, Text, Bool, true, false, not, ◌&&◌,
  ◌||◌, List, Option, none, some, is_none, or_else, ltb, leb, ◌==◌, if◌then◌else◌, map, keep, find,
  length, text_eq, arith, Dict, get, set, codes,
}
use feature_flag_system.Cluster.{NodeState, max_of}

pub data Phase : Type 0 where
  idle running converged settled : Phase

pub data Source : Type 0 where
  idle active done : Source

pub record NodeRow : Type 0 where
  pub url : Text
  pub id : Text
  pub pre_version : Option ℕ
  pub cur_version : Option ℕ
  pub arrived : Bool
  pub ms : Option ℕ

-- The narrations that carry numbers keep them.
pub data Narration : Type 0 where
  press_flip saving all_agree : Narration
  diverged : (arrived total target : ℕ) → Narration
  still_catching_up : (arrived total target : ℕ) → Narration

pub record Hero : Type 0 where
  pub phase : Phase
  pub source : Source
  pub nodes : List NodeRow
  pub target : Option ℕ
  pub narration : Narration
  pub error : Bool
  pub running : Bool

unfoldable pub initial_nodes : List Text → List NodeRow
initial_nodes urls =
    map
      (λ url. record {
        url = url;
        id = url;
        pre_version = none;
        cur_version = none;
        arrived = false;
        ms = none;
      })
      urls

unfoldable pub open_hero : List Text → Hero
unfolding initial_nodes
open_hero urls = record {
  phase = idle;
  source = Source.idle;
  nodes = initial_nodes urls;
  target = none;
  narration = press_flip;
  error = false;
  running = false;
}

-- `s.ok && s.configVersion !== null && s.configVersion >= tgt`
abbrev pub reached : ℕ → NodeState → Bool
reached tgt s = s.ok && elim s.config_version [ none ↦ false | some v ↦ leb tgt v ]

-- The versions that the target must exceed.
unfoldable pub pre_max : ℕ → List NodeState → ℕ
pre_max known [] = known
pre_max known (s ∷ states) =
    let rest = pre_max known states in
    if s.ok then elim s.config_version [ none ↦ rest | some v ↦ max v rest ] else rest

-- The rows before the change: `states[i]` belongs to `urls[i]`.
unfoldable pub pre_rows : List Text → List NodeState → List NodeRow
pre_rows [] states = []
pre_rows (url ∷ urls) [] =
    record {
      url = url;
      id = url;
      pre_version = none;
      cur_version = none;
      arrived = false;
      ms = none;
    }
    ∷ pre_rows urls []
pre_rows (url ∷ urls) (s ∷ states) =
    record {
      url = url;
      id = s.node_id;
      pre_version = s.config_version;
      cur_version = s.config_version;
      arrived = false;
      ms = none;
    }
    ∷ pre_rows urls states

-- The loop over the states of one poll: the arrival times, and whether all arrived.
unfoldable pub note_arrivals : ℕ → ℕ → List NodeState → Dict ℕ → Dict ℕ × Bool
note_arrivals tgt elapsed [] arrival = (arrival, true)
note_arrivals tgt elapsed (s ∷ states) arrival =
    let arrival' =
      if reached tgt s && is_none (get s.url arrival) then set s.url elapsed arrival else arrival in
    let rest = note_arrivals tgt elapsed states arrival' in (rest.0, reached tgt s && rest.1)

unfoldable pub update_row : List NodeState → Dict ℕ → NodeRow → NodeRow
update_row states arrival n =
    let s = find (λ x. text_eq x.url n.url) states in
    record {
      url = n.url;
      id = elim s [ none ↦ n.id | some x ↦ x.node_id ];
      pre_version = n.pre_version;
      cur_version = elim s [
        | none ↦ n.cur_version
        | some x ↦ elim x.config_version [ none ↦ n.cur_version | some v ↦ some v ]
      ];
      arrived = not (is_none (get n.url arrival));
      ms = elim (get n.url arrival) [ none ↦ n.ms | some t ↦ some t ];
    }

pub record Poll : Type 0 where
  pub tested_at : ℕ
  pub states : List NodeState
  pub seen_at : ℕ

-- What the loop leaves: the page, the arrivals, whether it converged, and whether it ended.
pub record LoopEnd : Type 0 where
  pub hero : Hero
  pub arrival : Dict ℕ
  pub has_converged : Bool
  pub ended : Bool

-- The body of the loop up to its break.
unfoldable pub poll_body : ℕ → ℕ → ℕ → Poll → Hero → Dict ℕ → Hero
poll_body tgt total t0 p hero arrival =
    let count = length arrival in
    record hero {
      nodes = map (update_row p.states arrival) hero.nodes;
      narration =
          if ltb 0 count && ltb count total then diverged count total tgt else hero.narration;
    }

unfoldable pub poll_loop : (tgt total t0 deadline : ℕ) → List Poll → Hero → Dict ℕ → LoopEnd
unfolding poll_body
poll_loop tgt total t0 deadline [] hero arrival = record {
  hero = hero;
  arrival = arrival;
  has_converged = false;
  ended = false;
}
poll_loop tgt total t0 deadline (p ∷ polls) hero arrival =
    let noted = note_arrivals tgt (p.seen_at - t0) p.states arrival in
    let hero' = poll_body tgt total t0 p hero noted.0 in
    let rest = poll_loop tgt total t0 deadline polls hero' noted.0 in
    if not (ltb p.tested_at deadline)
    then record { hero = hero; arrival = arrival; has_converged = false; ended = true }
    else if noted.1
    then record { hero = hero'; arrival = noted.0; has_converged = true; ended = true }
    else rest

-- What a run meets: the states before, the times, and whether each call worked.
pub record World : Type 0 where
  pub known_version : ℕ
  pub before : List NodeState
  pub t0 : ℕ
  pub toggled : Bool
  pub resumed_at : ℕ
  pub polls : List Poll

-- The page when the polling starts.
unfoldable pub prepare : List Text → World → ℕ → Hero → Hero
unfolding pre_rows
prepare urls w tgt hero = record hero {
  phase = running;
  source = active;
  target = some tgt;
  nodes = pre_rows urls w.before;
  narration = saving;
  error = false;
  running = true;
}

abbrev pub target_of : World → ℕ
target_of w = pre_max w.known_version w.before + 1

unfoldable pub conclude : ℕ → ℕ → LoopEnd → Hero
conclude tgt total e =
    if e.has_converged
    then record e.hero { phase = converged; narration = all_agree; running = false }
    else record e.hero {
      phase = settled;
      narration = still_catching_up (length e.arrival) total tgt;
      running = false;
    }

unfoldable pub fail_flip : Hero → Hero
fail_flip hero = record hero {
  error = true;
  phase = idle;
  source = Source.idle;
  narration = press_flip;
  running = false;
}

-- `runFlip`, for a page that has the flag or not.
unfoldable pub run_flip : List Text → Bool → World → Hero → Hero
unfolding pre_max prepare poll_loop conclude fail_flip
run_flip urls has_flag w hero =
    let tgt = target_of w in
    let prepared = prepare urls w tgt hero in
    let flipped = record prepared { source = done } in
    if hero.running || not has_flag
    then hero
    else if not w.toggled
    then fail_flip prepared
    else conclude tgt (length urls)
        (poll_loop tgt (length urls) w.t0 (w.resumed_at + 8000) w.polls flipped [])
