-- ===== src/Explain/Tour/Visits.antt =====
-- What a visit does with the tour of frontend/components/explain/GuidedTour.tsx.
use feature_flag_system.Prelude.{◌≡◌, ◌⊎◌, ◌∷◌, [], ◌<◌, true, false, List, length, arith}
use feature_flag_system.Explain.Tour.{
  Storage, Tour, Button, close_button, escape_key, link, skip, back, next, done, Act, presses,
  takes_tour, act, act_all, press, offers, read_open, load, open_tour, close_tour, seen, mark_seen,
  steps, render,
}

press-lt : (b : Button) (t : Tour) → t.step < 9 → (press b t).step < 9
unfolding press offers close_tour render read_open
press-lt close_button t h = ground arith
press-lt escape_key t h = ground arith
press-lt link t h = ground arith
press-lt skip t h = ground arith
press-lt back t h = ground arith
press-lt next t h = ground arith
press-lt done t h = ground arith

act-lt : (a : Act) (t : Tour) → t.step < 9 → (act a t).step < 9
unfolding act open_tour render read_open
act-lt (presses b) t h = press-lt b t h
act-lt takes_tour t h = ground arith

act_all-lt : (acts : List Act) (t : Tour) → t.step < 9 → (act_all acts t).step < 9
unfolding act_all
act_all-lt [] t h = h
act_all-lt (a ∷ acts) t h = act_all-lt acts (act a t) (act-lt a t h)

-- Whatever the reader presses, in any visit, the panel's step is one of the tour's steps.
pub step_exists :
    (storage : Storage) (acts : List Act) → (act_all acts (load storage)).step < length steps
unfolding load
step_exists storage acts = act_all-lt acts (load storage) (omega arith)

-- A step's link closes the panel like the other ways out, and where storage can be used, the
-- tour does not open by itself on the next load.
pub way_out :
    (b : Button) (t : Tour)
    → offers t b ≡ true
    → (b ≡ link) ⊎ ((b ≡ skip) ⊎ ((b ≡ done) ⊎ ((b ≡ close_button) ⊎ (b ≡ escape_key))))
    → (read_open (press b t) ≡ false) × (read_open (load (press b t).storage) ≡ false)
unfolding press close_tour render read_open load seen mark_seen
way_out b t o h = ground arith
