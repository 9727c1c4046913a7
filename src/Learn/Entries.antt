-- ===== src/Learn/Entries.antt =====
-- The entries of frontend/lib/glossary.ts.
use feature_flag_system.Prelude.{◌∷◌, [], ◌++◌, Text, codes, List}

pub record GlossaryEntry : Type 0 where
  pub id : Text
  pub term : Text
  pub short : Text
  pub definition : Text
  pub analogy : Text

abbrev rollout : GlossaryEntry
rollout = record {
  id = codes "rollout";
  term = codes "Percentage rollout";
  short =
      codes "Turn a feature on for a fixed share of users — the same people each time, "
      ++ codes "no flicker.";
  definition =
      codes "A flag can be on for only a slice of users — say 25%. It isn't random per "
      ++ codes "request: each user gets a fixed dice roll from a hash of their id, so the "
      ++ codes "same person always lands on the same side. You can dial the percentage up "
      ++ codes "as you gain confidence.";
  analogy =
      codes "A bouncer with a permanent guest list and a dice that always rolls the same "
      ++ codes "number for you.";
}

abbrev targeting : GlossaryEntry
targeting = record {
  id = codes "targeting";
  term = codes "Targeting";
  short = codes "An always-on allow-list of specific users, regardless of the rollout %.";
  definition =
      codes "Named users who always get the feature, no matter the rollout percentage. "
      ++ codes "Targeting is checked before the percentage, so your beta testers or your "
      ++ codes "own account see the change immediately while everyone else waits for the "
      ++ codes "rollout.";
  analogy = codes "The VIP list at the door — you're in, no dice roll needed.";
}

abbrev local_evaluation : GlossaryEntry
local_evaluation = record {
  id = codes "local-evaluation";
  term = codes "Local evaluation";
  short = codes "The SDK decides on/off on the device — no network call per check.";
  definition =
      codes "The SDK holds the full flag config and computes on/off right on the device "
      ++ codes "using the same math everywhere. Checking a flag is a local function call, "
      ++ codes "not a request to the server, so it's instant and keeps working even if the "
      ++ codes "network blips.";
  analogy =
      codes "Everyone carries the same rulebook, so nobody has to phone head office to "
      ++ codes "make a call.";
}

abbrev sse : GlossaryEntry
sse = record {
  id = codes "sse";
  term = codes "SSE (real-time updates)";
  short = codes "The server pushes changes to the browser over a live stream.";
  definition =
      codes "Server-Sent Events keep a one-way stream open from the server to the "
      ++ codes "client. When a flag changes, the server pushes it down the stream "
      ++ codes "immediately — the client doesn't poll on a timer. That's how a flip reaches "
      ++ codes "every open page in milliseconds.";
  analogy = codes "A live radio you leave on, not you dialing the station every few seconds.";
}

abbrev propagation : GlossaryEntry
propagation = record {
  id = codes "propagation";
  term = codes "Propagation";
  short = codes "A change traveling from the database out to every server and client.";
  definition =
      codes "The journey a flag change takes after you save it: written to Postgres, "
      ++ codes "announced over Redis, applied by every backend, then pushed to connected "
      ++ codes "clients. Propagation latency is how long that whole trip takes, measured "
      ++ codes "end to end.";
  analogy = codes "A memo leaving the head office and reaching every desk in the building.";
}

abbrev convergence : GlossaryEntry
convergence = record {
  id = codes "convergence";
  term = codes "Convergence";
  short = codes "Every node agreeing on the same latest version.";
  definition =
      codes "The cluster has converged when every reachable node reports the same config "
      ++ codes "version. Right after a change they may briefly differ; convergence is the "
      ++ codes "moment they all catch up and agree again.";
  analogy = codes "Everyone in the meeting finally on the same page number.";
}

abbrev config_version : GlossaryEntry
config_version = record {
  id = codes "config-version";
  term = codes "config_version";
  short = codes "A global counter that bumps by one on every committed change.";
  definition =
      codes "One monotonically increasing number for the whole system, incremented on "
      ++ codes "each committed change. It's the heartbeat you see in the top bar. Comparing "
      ++ codes "versions tells you instantly whether a node or client is up to date or "
      ++ codes "behind.";
  analogy = codes "A save-point counter — every save gets the next number.";
}

abbrev versioning : GlossaryEntry
versioning = record {
  id = codes "versioning";
  term = codes "Versioning";
  short = codes "Numbering every change so anyone can tell what they've applied.";
  definition =
      codes "Every change is stamped with a version number. Clients apply versions in "
      ++ codes "order and never go backwards, so it's always clear which state each client "
      ++ codes "is on and whether it has missed anything.";
  analogy = codes "Save points in a game — each has a number, and you load them in order.";
}

abbrev reconcile : GlossaryEntry
reconcile = record {
  id = codes "reconcile";
  term = codes "Reconcile";
  short = codes "A client that fell behind replays the missed changes in order to catch up.";
  definition =
      codes "If a client's stream drops and it misses events, on reconnect it asks the "
      ++ codes "server for everything after its last version and replays those changes in "
      ++ codes "order. It ends up at the exact latest state — no full reload, no guessing.";
  analogy = codes "You dozed off in the meeting, then quietly read the notes to catch up.";
}

abbrev optimistic_concurrency : GlossaryEntry
optimistic_concurrency = record {
  id = codes "optimistic-concurrency";
  term = codes "Optimistic concurrency";
  short = codes "Edits carry the version you saw; a stale edit is rejected with a 409.";
  definition =
      codes "When you save an edit, the client sends the version it loaded (an If-Match "
      ++ codes "check). If someone changed the flag in the meantime, the server rejects "
      ++ codes "your write with a 409 conflict instead of silently overwriting their "
      ++ codes "change. You re-load and retry on the fresh version.";
  analogy =
      codes "Editing a shared doc: if it changed under you, it warns you before you "
      ++ codes "clobber someone's work.";
}

abbrev p99 : GlossaryEntry
p99 = record {
  id = codes "p99";
  term = codes "p99";
  short = codes "The value 99% of measurements come in under — a tail-latency check.";
  definition =
      codes "A percentile. p99 propagation latency means 99% of changes propagated "
      ++ codes "faster than this number; only the slowest 1% took longer. Watching the tail "
      ++ codes "(p99), not just the average, is how you catch the bad-case experience.";
  analogy = codes "Not the typical commute — the near-worst day you should still plan around.";
}

abbrev readyz : GlossaryEntry
readyz = record {
  id = codes "readyz";
  term = codes "/readyz";
  short = codes "A per-node health check: is this server ready to serve correct data?";
  definition =
      codes "Each backend exposes /readyz. It returns ready only when the node can reach "
      ++ codes "its dependencies (Postgres, Redis) and holds current config. A load "
      ++ codes "balancer uses it to route traffic only to nodes that can actually serve "
      ++ codes "correct answers.";
  analogy =
      codes "A shop's 'Open' sign — it only flips on when the tills and lights actually "
      ++ codes "work.";
}

abbrev event_log : GlossaryEntry
event_log = record {
  id = codes "event-log";
  term = codes "Event log";
  short = codes "The durable, ordered record of every flag change — the real history.";
  definition =
      codes "Every change is appended to a durable log in the database, each with a "
      ++ codes "monotonically increasing version. Unlike the live stream (which is "
      ++ codes "ephemeral and can be missed), the log is the source of truth: a client that "
      ++ codes "fell behind replays from it to catch up, and the version timeline is just "
      ++ codes "this log, drawn.";
  analogy =
      codes "A ship's logbook — the messenger may not always reach you, but the log is "
      ++ codes "always there to read back.";
}

abbrev determinism : GlossaryEntry
determinism = record {
  id = codes "determinism";
  term = codes "Determinism";
  short = codes "Same input, same answer, every time — no randomness, no flicker.";
  definition =
      codes "A rollout is deterministic: a given user always gets the same verdict for a "
      ++ codes "flag, on every page load and on every server. It isn't a fresh coin flip "
      ++ codes "each request — it's a fixed roll derived from the user's id. That's why 25% "
      ++ codes "means the same 25% of people, not a different quarter each time.";
  analogy = codes "A dice that always rolls the same number for you — your seat is fixed.";
}

abbrev hash_bucket : GlossaryEntry
hash_bucket = record {
  id = codes "hash-bucket";
  term = codes "Hash bucket";
  short = codes "A user's fixed 0–99 slot for a flag, from a hash of their id.";
  definition =
      codes "To decide a percentage rollout without storing per-user state, the flag key "
      ++ codes "and user id are hashed (FNV-1a) into a number 0–99 — the user's bucket. If "
      ++ codes "the bucket is below the rollout percentage, they're in. Because the hash is "
      ++ codes "fixed, so is the bucket, so the answer is stable and every server computes "
      ++ codes "it identically.";
  analogy = codes "A permanent locker number — everyone can look it up and get the same one.";
}

-- GLOSSARY
abbrev pub glossary : List GlossaryEntry
glossary =
    rollout ∷ targeting ∷ local_evaluation ∷ sse ∷ propagation ∷ convergence ∷ config_version
    ∷ versioning ∷ reconcile ∷ optimistic_concurrency ∷ p99 ∷ readyz ∷ event_log ∷ determinism
    ∷ hash_bucket ∷ []
