-- ===== src/Explain/Tour.antt =====
-- frontend/components/explain/GuidedTour.tsx: the guided tour, its store and its panel. The
-- browser's storage is a parameter of a session: `available` tells whether it can be used.
pub mod Visits
use feature_flag_system.Prelude.{
  ◌≡◌, refl, ◌∷◌, [], ℕ, zero, suc, ◌+◌, ◌-◌, ◌<◌, Text, Bool, true, false, not, ◌&&◌, List, Option,
  none, some, codes, if◌then◌else◌, length, ◌==◌, get_elem?, arith,
}

pub record Storage : Type 0 where
  pub available : Bool
  pub seen_mark : Bool

pub record Tour : Type 0 where
  pub storage : Storage
  -- `override`: none follows the first run.
  pub override : Option Bool
  -- The panel's state: the step, and whether the last render was open.
  pub step : ℕ
  pub was_open : Bool

unfoldable pub seen : Storage → Bool
seen s = if s.available then s.seen_mark else true

unfoldable pub mark_seen : Storage → Storage
mark_seen s = if s.available then record s { seen_mark = true } else s

unfoldable pub read_open : Tour → Bool
unfolding seen
read_open t = elim t.override [ none ↦ not (seen t.storage) | some v ↦ v ]

-- A render of the panel: a tour that was closed and is open begins at the first step.
unfoldable pub render : Tour → Tour
unfolding read_open
render t =
    let is_open = read_open t in
    record t { was_open = is_open; step = if is_open && not t.was_open then 0 else t.step }

-- A page load: the store is fresh, and the panel's first render has the state that it finds.
unfoldable pub load : Storage → Tour
unfolding read_open
load storage =
    let fresh : Tour = record { storage = storage; override = none; step = 0; was_open = false } in
    record fresh { was_open = read_open fresh }

unfoldable pub open_tour : Tour → Tour
unfolding render
open_tour t = render (record t { override = some true })

unfoldable pub close_tour : Tour → Tour
unfolding render mark_seen
close_tour t = render (record t { override = some false; storage = mark_seen t.storage })

-- A step's chapter, and where its link leads.
pub record TourStep : Type 0 where
  pub chapter : Text
  pub title : Text
  pub href : Text
  pub link_label : Text

abbrev step_of : Text → Text → Text → Text → TourStep
step_of chapter title href link_label = record {
  chapter = chapter;
  title = title;
  href = href;
  link_label = link_label;
}

abbrev pub steps : List TourStep
steps =
    step_of (codes "1 · What a flag is") (codes "A switch for your app") (codes "/")
      (codes "Go to Overview")
    ∷ step_of (codes "2 · Percentage rollout") (codes "25% isn't random") (codes "/demo")
        (codes "Go to Demo")
    ∷ step_of (codes "3 · Why ON or OFF") (codes "Read the decision") (codes "/demo")
        (codes "Open the explainer")
    ∷ step_of (codes "4 · Local evaluation") (codes "The decision is instant") (codes "/demo")
        (codes "Try the Demo")
    ∷ step_of (codes "5 · Real-time updates") (codes "Pushed, not polled") (codes "/cluster")
        (codes "See the live feed")
    ∷ step_of (codes "6 · Many servers") (codes "Diverge, then converge") (codes "/cluster")
        (codes "Watch convergence")
    ∷ step_of (codes "7 · Versioning") (codes "Every change is a save point") (codes "/flags")
        (codes "Go to Flags")
    ∷ step_of (codes "8 · Failure & recovery") (codes "It heals itself") (codes "/resilience")
        (codes "See resilience")
    ∷ step_of (codes "You're ready") (codes "Now make it yours") (codes "/playground")
        (codes "Open the Playground")
    ∷ []

-- The panel's buttons, which depend on the step, and what each does.
pub data Button : Type 0 where
  close_button escape_key link skip back next done : Button

unfoldable pub offers : Tour → Button → Bool
unfolding read_open
offers t b =
    let is_first = t.step == 0 in
    let is_last = t.step == length steps - 1 in
    read_open t && elim b [
      | skip ↦ is_first
      | back ↦ not is_first
      | done ↦ is_last
      | next ↦ not is_last
      | _ ↦ true
    ]

unfoldable pub press : Button → Tour → Tour
unfolding offers close_tour
press b t = if not (offers t b) then t else elim b [
  | back ↦ record t { step = t.step - 1 }
  | next ↦ record t { step = t.step + 1 }
  | _ ↦ close_tour t
]

-- What a reader does: presses a button of the panel, or "Take the tour".
pub data Act : Type 0 where
  presses : Button → Act
  takes_tour : Act

unfoldable pub act : Act → Tour → Tour
unfolding press open_tour
act (presses b) t = press b t
act takes_tour t = open_tour t

unfoldable pub act_all : List Act → Tour → Tour
act_all [] t = t
act_all (a ∷ acts) t = act_all acts (act a t)
