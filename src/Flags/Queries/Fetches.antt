-- ===== src/Flags/Queries/Fetches.antt =====
-- What a change fetches again.
use feature_flag_system.Prelude.{
  ◌∷◌, [], codes, Bool, true, false, ◌&&◌, List, ◌≡◌, ◌≢◌, refl, sym, ap, ◌∙◌, arith, text_eq,
  text_eq_iff, map, keep, All, Bool-cases, inl, inr,
}
use mathlib.Core.List.{Memᴰ}
use feature_flag_system.Flags.Queries.{
  Key, CachedQuery, flags_key, is_prefix, matches, invalidate, Change, created, updated, toggled,
  deleted, pushed_update, pushed_delete, stream_error, changed,
}

-- A key that an exact invalidation matches is the key itself.
matches-exact : (filter key : Key) → matches true filter key ≡ true → filter ≡ key
unfolding matches is_prefix
matches-exact [] [] h = refl
matches-exact [] (b ∷ k) h = absurd (ground arith)
matches-exact (a ∷ p) [] h = absurd (ground arith)
matches-exact (a ∷ p) (b ∷ k) h = ground (arith, text_eq_iff a b, matches-exact p k)

fetched-All :
    (p : CachedQuery → Bool) (P : Key → Type 0) (cache : List CachedQuery)
    → ((q : CachedQuery) → p q ≡ true → P q.key)
    → All P (map (λ q. q.key) (keep p cache))
fetched-All p P [] h = tt
fetched-All p P (q ∷ qs) h = elim (Bool-cases (p q)) [
  | inl hit ↦ rw hit (h q hit, fetched-All p P qs h)
  | inr miss ↦ rw miss (fetched-All p P qs h)
]

fetched-mem :
    (p : CachedQuery → Bool) (q : CachedQuery) (cache : List CachedQuery)
    → Memᴰ q cache
    → p q ≡ true
    → Memᴰ q.key (map (λ x. x.key) (keep p cache))
fetched-mem p q [] m h = elim m [ ]
fetched-mem p q (x ∷ xs) (Memᴰ.head same) h =
    let hit : p x ≡ true = ap p (sym same) ∙ h in rw hit (Memᴰ.head (ap (λ y. y.key) same))
fetched-mem p q (x ∷ xs) (Memᴰ.tail m) h = elim (Bool-cases (p x)) [
  | inl hit ↦ rw hit (Memᴰ.tail (fetched-mem p q xs m h))
  | inr miss ↦ rw miss (fetched-mem p q xs m h)
]

-- An invalidation of all keys that start with "flags".
all_flags_fetched :
    (q : CachedQuery) (cache : List CachedQuery) (rest : Key)
    → Memᴰ q cache
    → q.is_active ≡ true
    → q.key ≡ codes "flags" ∷ rest
    → Memᴰ q.key (invalidate false flags_key cache).1
unfolding invalidate matches is_prefix text_eq
all_flags_fetched q cache rest m active starts =
    fetched-mem (λ x. x.is_active && matches false flags_key x.key) q cache m
      (rw (active, starts) refl)

-- After a deletion that succeeded, the list and nothing else is fetched again, whatever queries
-- there are: not the deleted flag, nor its history, which the server would answer with 404.
pub deletion_fetches :
    (cache : List CachedQuery) → All (λ k. flags_key ≡ k) (changed deleted cache).1
unfolding changed invalidate
deletion_fetches cache =
    fetched-All (λ q. q.is_active && matches true flags_key q.key) (λ k. flags_key ≡ k) cache
      (λ q h. matches-exact flags_key q.key (ground arith))

-- After every successful change but a deletion, and after every event of the stream but an error,
-- each active query of the flags is fetched again: the list, every open flag and every open
-- history.
pub change_fetches :
    (cache : List CachedQuery) (c : Change) (q : CachedQuery) (rest : Key)
    → c ≢ deleted
    → c ≢ stream_error
    → Memᴰ q cache
    → q.is_active ≡ true
    → q.key ≡ codes "flags" ∷ rest
    → Memᴰ q.key (changed c cache).1
unfolding changed
change_fetches cache created q rest d e m active starts =
    all_flags_fetched q cache rest m active starts
change_fetches cache updated q rest d e m active starts =
    all_flags_fetched q cache rest m active starts
change_fetches cache toggled q rest d e m active starts =
    all_flags_fetched q cache rest m active starts
change_fetches cache deleted q rest d e m active starts = absurd (d refl)
change_fetches cache pushed_update q rest d e m active starts =
    all_flags_fetched q cache rest m active starts
change_fetches cache pushed_delete q rest d e m active starts =
    all_flags_fetched q cache rest m active starts
change_fetches cache stream_error q rest d e m active starts = absurd (e refl)
