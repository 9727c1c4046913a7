-- ===== src/Lib.antt =====
-- FlagPlane, a feature flag platform: a Go server keeps flags and an append-only log of their
-- changes, a browser SDK holds a copy of the flags and evaluates them locally, and a Next.js
-- dashboard edits flags, explains evaluations and shows how changes reach the servers. This
-- library models the logic of the SDK and of the dashboard (frontend/), and of the server what
-- writes flags and answers for them (backend/internal).
--
-- How the parts meet. The SDK reads a snapshot, opens a stream of events and, when it finds a gap
-- or the stream opens, replays the log page by page; the dashboard's lists, forms and heroes talk
-- to the server through a same-origin proxy and poll the nodes behind the load balancer.
--
-- Prelude: texts as lists of UTF-16 code units, integers over the native numbers, JavaScript's Map
--   as an association list in insertion order, parseInt, decimal numerals, split and join.
-- Types: frontend/types/flag.ts.
-- Sdk: frontend/sdk/FeatureFlagClient.ts. Client is the object with its callbacks, streams and
--   timer; what an operation does to the world is listed in `effects`. The asynchronous methods
--   are cut where they wait: Reconcile.reconcile and reconcile_page, Init.init and init_rest, so
--   that every other operation may run in between. Stream has the callbacks of the stream. Hash
--   is fnv1a32 on 32-bit words. Log is the server's event log and its meaning (which flags exist
--   at a version, from the writes of backend/internal/repository/flag_repository.go), System the
--   step relation of a client against a growing log, CatchUp the server's answers to a replay,
--   Outage, Deaf and Streams what disconnect and destroy leave behind, and Late what a commit out
--   of order does.
-- Evaluate: frontend/lib/evaluate.ts, with its agreement with the SDK in Parity.
-- Flags: frontend/components/flags and frontend/app/flags. Users is TargetedUsersInput, Form is
--   FlagForm, Slider is RolloutSlider with the clock in its state, Detail is the page of one flag
--   with the query cache as a source of events, Creation the page of a new flag, List is FlagList
--   with the parts of its rows and FlagHistoryDrawer, Queries is frontend/hooks/useFlags.ts and
--   useSSE.ts: which cached queries a change fetches again.
-- Explain: frontend/components/explain. Why is WhyExplainer, Grid is RolloutVisualizer, Console is
--   SseConsole, Tour is GuidedTour, Timeline is VersionTimeline with hooks/useEvents.ts, Mode is
--   ExplainProvider with AdvancedDetails, ExplainToggle and GuideCallout. Here and elsewhere a child
--   View has what is drawn.
-- Cluster: frontend/hooks/useCluster.ts; Flip is runFlip of components/cluster/ClusterHero.tsx;
--   Seeding is the effect by which the heroes create their flag; Pages is what app/cluster/page.tsx
--   and app/resilience/page.tsx say.
-- Overview: Propagation is frontend/components/overview/PropagationHero.tsx, with runFlip cut
--   where it waits, so that stream events and the timer may run in between.
--   Stats has the tiles of frontend/app/page.tsx. The heroes' drawings are Propagation.View and
--   Cluster.Flip.View.
-- Health: frontend/hooks/useHealth.ts, and in Page frontend/app/health/page.tsx with the strip of
--   the overview.
-- Demo: frontend/app/demo/page.tsx, whose copies of the client's status, flags and version are
--   what the client's callbacks told it; View is what it draws, with components/demo, and
--   Playground is frontend/app/playground/page.tsx.
-- Layout: frontend/components/layout, the titles and the entries of the bars.
-- Learn: Entries and Glossary are frontend/lib/glossary.ts with its page and
--   components/explain/Term.tsx, Chapters is frontend/app/learn/page.tsx.
-- Server: the tables and the sequence of backend/migrations as a store. Repository is
--   backend/internal/repository/flag_repository.go, each write a transaction that commits or leaves
--   the tables as they were, Service is backend/internal/service/flag_service.go with what it
--   publishes, Listing and Queries the snapshot, the history and the replay of
--   backend/internal/handler/client_handler.go, Serving the server together with a client of Sdk.
--   Overlap has the writes again as transactions that draw a version and commit later, in any
--   interleaving; Overlap.Alone compares the two.
--   Rows are looked up by their ids and keys, which are well-formed. Handlers has the responses of
--   backend/internal/handler/admin_handler.go, and in Saving a save from the browser and back.
--   Broker is backend/internal/sse/broker.go, where every request, frame, cancellation and shutdown
--   is a step; Wire the way of an envelope through wire.go and a frame to the listeners of the SDK
--   and of frontend/lib/sse.ts (Flags.Live). Rollout is backend/internal/hash and the evaluation
--   of backend/pkg/ffclient.
-- Admin: frontend/lib/api.ts, frontend/lib/admin-proxy.ts and the routes of app/api/admin.
--
-- Bounds and fuel. A replay makes at most 10000 requests, the bound of the code; its pages hold
-- 500 events unless the request asks otherwise, 1000 at most; longer backlogs are not covered. A
-- flip polls until 8000 ms after the change; its polls are a list, and any list with a poll at or
-- after the deadline is long enough. Recursion on decimal digits has more fuel than digits.
-- Versions are natural numbers: the sequence of 64 bits is taken not to be used up. A stream's
-- queue has the 16 places of the code.
--
-- Parameters. The network, the backend behind the proxy, the JSON parser, encodeURIComponent, the
-- query cache, the clock and the browser's storage are arguments or events. `Array.sort` is an
-- insertion sort with the comparison that the code gives it; on distinct users, which that
-- comparison never ties, every sort gives the same list.
--
-- Not modelled: styling, running texts of the pages but for Learn, the component library, the
-- parsers and local forms of times (parameters where a drawing uses them), floating-point latencies
-- (parameters of Health), and of the server the SQL engine, Redis, the router, metrics, logs, its
-- start-up and the drivers that measure it. But for Server.Overlap, writes run one at a time; what
-- commits out of order do to a client is in Sdk.Late.
mod Prelude
pub mod Types
pub mod Sdk
pub mod Evaluate
pub mod Flags
pub mod Explain
pub mod Cluster
pub mod Admin
pub mod Overview
pub mod Server
pub mod Demo
pub mod Health
pub mod Layout
pub mod Learn
