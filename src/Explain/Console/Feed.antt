-- ===== src/Explain/Console/Feed.antt =====
-- The feed of frontend/components/explain/SseConsole.tsx.
use feature_flag_system.Prelude.{
  ◌≡◌, refl, ◌∷◌, [], ℕ, zero, suc, ◌≤◌, ◌<◌, Bool, true, false, List, take, length, length-take,
  All, All-take, arith, subst, sym, not, if◌then◌else◌,
}
use feature_flag_system.Explain.Console.{
  Console, Entry, Frame, Happening, opens, errors, clicks_pause, clicks_clear, update, deletion,
  happen, happen_all, limit, open_console, on_open, on_error, push, toggle_paused, clear, entry_of,
}

-- Newest first: each entry has a larger number than all below it.
abbrev pub NewestFirst : List Entry → Type 0
NewestFirst [] = Unit
NewestFirst (e ∷ entries) = All (λ d. d.seq < e.seq) entries × NewestFirst entries

-- The feed is bounded, ordered, and numbered below the next number.
pub record IsFeed (c : Console) : Type 0 where
  bounded : length c.entries ≤ limit c.compact
  ordered : NewestFirst c.entries
  numbered : All (λ d. d.seq < c.seq) c.entries

NewestFirst-take : (n : ℕ) (es : List Entry) → NewestFirst es → NewestFirst (take n es)
NewestFirst-take zero es h = tt
NewestFirst-take (suc n) [] h = tt
NewestFirst-take (suc n) (e ∷ es) h =
    (All-take (λ d. d.seq < e.seq) n es h.0, NewestFirst-take n es h.1)

All-suc : (n : ℕ) (es : List Entry) → All (λ d. d.seq < n) es → All (λ d. d.seq < suc n) es
All-suc n [] h = tt
All-suc n (e ∷ es) h = (omega (arith, h.0), All-suc n es h.1)

push_entries-IsFeed :
    (c : Console) (e : Entry)
    → e.seq ≡ c.seq
    → IsFeed c
    → IsFeed (record c { entries = take (limit c.compact) (e ∷ c.entries); seq = suc c.seq })
push_entries-IsFeed c e q h = record {
  bounded = ground (arith, length-take (limit c.compact) (e ∷ c.entries));
  ordered =
      NewestFirst-take (limit c.compact) (e ∷ c.entries)
        (subst (λ n. All (λ d. d.seq < n) c.entries) (sym q) h.numbered, h.ordered);
  numbered =
      All-take (λ d. d.seq < suc c.seq) (limit c.compact) (e ∷ c.entries)
        (omega (arith, q), All-suc c.seq c.entries h.numbered);
}

IsFeed-if : (b : Bool) (c d : Console) → IsFeed c → IsFeed d → IsFeed (if b then c else d)
IsFeed-if true c d h k = h
IsFeed-if false c d h k = k

push-IsFeed : (d : Bool) (e : Frame) (now : ℕ) (c : Console) → IsFeed c → IsFeed (push d e now c)
unfolding push entry_of
push-IsFeed d e now c h =
    IsFeed-if c.paused c _ h (push_entries-IsFeed c (entry_of d e c.seq now) refl h)

happen-IsFeed : (x : Happening) (c : Console) → IsFeed c → IsFeed (happen x c)
unfolding happen on_open on_error toggle_paused clear
happen-IsFeed opens c h = record { bounded = h.bounded; ordered = h.ordered; numbered = h.numbered }
happen-IsFeed errors c h = record {
  bounded = h.bounded;
  ordered = h.ordered;
  numbered = h.numbered;
}
happen-IsFeed clicks_pause c h =
    IsFeed-if c.compact c (record c { paused = not c.paused }) h
      (record { bounded = h.bounded; ordered = h.ordered; numbered = h.numbered })
happen-IsFeed clicks_clear c h =
    IsFeed-if c.compact c (record c { entries = [] }) h
      (record { bounded = omega arith; ordered = tt; numbered = tt })
happen-IsFeed (update e now) c h = push-IsFeed false e now c h
happen-IsFeed (deletion e now) c h = push-IsFeed true e now c h

-- However the stream behaves and whatever is clicked, the feed holds at most 6 entries when
-- compact and 60 when full, the newest first, no two with the same number.
pub happen_all-IsFeed :
    (xs : List Happening) (compact : Bool) → IsFeed (happen_all xs (open_console compact))
unfolding happen_all open_console
happen_all-IsFeed xs compact =
    run xs (open_console compact) (record { bounded = ground arith; ordered = tt; numbered = tt })
  where
    run : (xs : List Happening) (c : Console) → IsFeed c → IsFeed (happen_all xs c)
    run [] c h = h
    run (x ∷ xs) c h = run xs (happen x c) (happen-IsFeed x c h)
