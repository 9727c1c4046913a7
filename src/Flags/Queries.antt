-- ===== src/Flags/Queries.antt =====
-- frontend/hooks/useFlags.ts and hooks/useSSE.ts: the keys of the queries, and which of them a
-- mutation or an event of the stream makes stale. The cache is react-query's, of which this says
-- what its documentation says of `invalidateQueries`: every query whose key starts with the given
-- key, or with `exact` the one that has it, becomes stale, and is fetched again if it is active.
pub mod Fetches
use feature_flag_system.Prelude.{
  ℕ, ◌∷◌, [], Text, codes, Bool, true, false, not, ◌&&◌, ◌||◌, List, Option, none, some, length,
  ◌==◌, is_empty, if◌then◌else◌, text_eq, keep, map,
}

abbrev pub Key : Type 0
Key = List Text

abbrev pub flags_key : Key
flags_key = codes "flags" ∷ []

-- `useFlag` and `useFlagHistory`
abbrev pub flag_key : Text → Key
flag_key id = codes "flags" ∷ id ∷ []

abbrev pub history_key : Text → Key
history_key id = codes "flags" ∷ id ∷ codes "events" ∷ []

pub record CachedQuery : Type 0 where
  pub key : Key
  pub is_active : Bool
  pub is_stale : Bool

-- `enabled: !!id && enabled`
unfoldable pub is_enabled_query : Text → Bool → Bool
is_enabled_query id enabled = not (is_empty id) && enabled

unfoldable pub is_prefix : Key → Key → Bool
is_prefix [] k = true
is_prefix (a ∷ p) [] = false
is_prefix (a ∷ p) (b ∷ k) = text_eq a b && is_prefix p k

unfoldable pub matches : (exact : Bool) → Key → Key → Bool
unfolding is_prefix
matches exact filter key =
    if exact then is_prefix filter key && length filter == length key else is_prefix filter key

abbrev mark : (exact : Bool) → Key → CachedQuery → CachedQuery
mark exact filter q = if matches exact filter q.key then record q { is_stale = true } else q

-- `invalidateQueries`, and the keys that are fetched again.
unfoldable pub invalidate : (exact : Bool) → Key → List CachedQuery → List CachedQuery × List Key
unfolding matches
invalidate exact filter cache = (
  map (mark exact filter) cache,
  map (λ q. q.key) (keep (λ q. q.is_active && matches exact filter q.key) cache),
)

-- What succeeded, or came over the stream of `useSSE`.
pub data Change : Type 0 where
  created updated toggled deleted : Change
  pushed_update pushed_delete stream_error : Change

-- The `onSuccess` of the mutations, and the handlers of `useSSE`.
unfoldable pub changed : Change → List CachedQuery → List CachedQuery × List Key
unfolding invalidate
changed created cache = invalidate false flags_key cache
changed updated cache = invalidate false flags_key cache
changed toggled cache = invalidate false flags_key cache
changed deleted cache = invalidate true flags_key cache
changed pushed_update cache = invalidate false flags_key cache
changed pushed_delete cache = invalidate false flags_key cache
changed stream_error cache = (cache, [])
