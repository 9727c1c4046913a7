-- ===== src/Server/Rollout.antt =====
-- backend/internal/hash/rollout.go, and the evaluation of the Go SDK, backend/pkg/ffclient: they
-- hash the bytes of UTF-8, where frontend/sdk/FeatureFlagClient.ts hashes UTF-16 code units.
use Prim.Native.Nat.{bit_xor}
use feature_flag_system.Prelude.{
  ℕ, ◌+◌, ◌-◌, ◌*◌, ◌/◌, ◌%◌, ◌^◌, ◌<◌, Text, codes, Bool, true, false, not, ◌&&◌, [], ◌∷◌, ◌++◌,
  none, some, ℤ, pos, leb_ℤ, ltb_ℤ, leb, ltb, if◌then◌else◌, ◌≡◌, ◌≢◌, refl, ap, arith, All, Dict,
  get, includes, Option-cases, inl, inr,
}
use feature_flag_system.Types.{FlagConfig}
use feature_flag_system.Sdk.Client.{Client, is_enabled}
use feature_flag_system.Sdk.Hash.{fnv1a32, fnv_loop}

-- The bytes of a text; half of a surrogate pair by itself becomes U+FFFD.
two_bytes : ℕ → Text
two_bytes c = (192 + c / 64) ∷ (128 + c % 64) ∷ []

three_bytes : ℕ → Text
three_bytes c = (224 + c / 4096) ∷ (128 + c / 64 % 64) ∷ (128 + c % 64) ∷ []

four_bytes : ℕ → Text
four_bytes c =
    (240 + c / 262144) ∷ (128 + c / 4096 % 64) ∷ (128 + c / 64 % 64) ∷ (128 + c % 64) ∷ []

abbrev is_high : ℕ → Bool
is_high c = leb 55296 c && leb c 56319

abbrev is_low : ℕ → Bool
is_low c = leb 56320 c && leb c 57343

unit_bytes : ℕ → Text
unfolding two_bytes three_bytes
unit_bytes c =
    if ltb c 128
    then c ∷ []
    else if ltb c 2048
    then two_bytes c
    else if is_high c
    then three_bytes 65533
    else if is_low c
    then three_bytes 65533
    else three_bytes c

unfoldable pub utf8 : Text → Text
unfolding unit_bytes four_bytes
utf8 [] = []
utf8 (c ∷ []) = unit_bytes c
utf8 (c ∷ d ∷ s) =
    let paired = four_bytes (65536 + (c - 55296) * 1024 + (d - 56320)) ++ utf8 s in
    let single = unit_bytes c ++ utf8 (d ∷ s) in if is_high c && is_low d then paired else single

-- `hash/fnv`: `New32a`, `Write` and `Sum32`.
sum32_from : ℕ → Text → ℕ
sum32_from h [] = h
sum32_from h (b ∷ bytes) = sum32_from (bit_xor h b * 16777619 % 2 ^ 32) bytes

-- `IsUserInRollout`, and `inRollout` of the SDK.
unfoldable pub is_user_in_rollout : Text → Text → ℤ → Bool
unfolding utf8 sum32_from
is_user_in_rollout flag_key user_id percentage =
    if leb_ℤ percentage (pos 0)
    then false
    else if leb_ℤ (pos 100) percentage
    then true
    else ltb_ℤ (pos (sum32_from 2166136261 (utf8 flag_key ++ b':' ∷ utf8 user_id) % 100)) percentage

-- `IsEnabled` of the SDK, over its map of flags.
unfoldable pub go_is_enabled : Dict FlagConfig → Text → Text → Bool
unfolding is_user_in_rollout
go_is_enabled flags flag_key user_id = elim (get flag_key flags) [
  | none ↦ false
  | some f ↦
      if not f.enabled
      then false
      else if includes f.targeted_users user_id
      then true
      else is_user_in_rollout flag_key user_id f.rollout_percentage
]

abbrev pub IsAscii : Text → Type 0
IsAscii t = All (λ c. c < 128) t

utf8-ascii : (t : Text) → IsAscii t → utf8 t ≡ t
unfolding utf8 unit_bytes
utf8-ascii [] h = refl
utf8-ascii (c ∷ []) h = ground arith
utf8-ascii (c ∷ d ∷ s) h = ground (arith, utf8-ascii (d ∷ s) h.1)

sum32_from-fnv_loop : (h : ℕ) (t : Text) → sum32_from h t ≡ fnv_loop h t
unfolding sum32_from fnv_loop
sum32_from-fnv_loop h [] = refl
sum32_from-fnv_loop h (b ∷ t) = sum32_from-fnv_loop (bit_xor h b * 16777619 % 2 ^ 32) t

is_user_in_rollout-ascii :
    (flag_key user_id : Text) (p : ℤ)
    → IsAscii flag_key
    → IsAscii user_id
    → is_user_in_rollout flag_key user_id p ≡ (
        if leb_ℤ p (pos 0)
        then false
        else if leb_ℤ (pos 100) p
        then true
        else ltb_ℤ (pos (fnv1a32 (flag_key ++ b':' ∷ user_id) % 100)) p)
unfolding is_user_in_rollout fnv1a32
is_user_in_rollout-ascii flag_key user_id p a b =
    rw
      (
        utf8-ascii flag_key a,
        utf8-ascii user_id b,
        sum32_from-fnv_loop 2166136261 (flag_key ++ b':' ∷ user_id),
      )
      refl

-- The Go SDK and the client of the browser that hold the same flags give every user the same
-- answer to every flag, known or not, switched off, targeted or rolled out at whatever
-- percentage, where the key and the user's id are ASCII.
pub go_sdk_agrees :
    (c : Client) (flag_key user_id : Text)
    → IsAscii flag_key
    → IsAscii user_id
    → go_is_enabled c.flags flag_key user_id ≡ is_enabled c flag_key user_id
unfolding go_is_enabled is_enabled
go_sdk_agrees c flag_key user_id a b =
    let same =
      λ (f : FlagConfig). is_user_in_rollout-ascii flag_key user_id f.rollout_percentage a b in
    elim (Option-cases (get flag_key c.flags)) [
      | inl unknown ↦ rw (go_is_enabled, is_enabled, unknown) refl
      | inr (f, known) ↦
          rw (go_is_enabled, is_enabled, known)
            (ap
              (λ rolled.
                if not f.enabled
                then false
                else if includes f.targeted_users user_id
                then true
                else rolled)
              (same f))
    ]

-- Outside ASCII they part: the user `é` of flag `beta` has another bucket in each.
parted :
    is_user_in_rollout (codes "beta") (codes "é") (pos 50)
    ≢ ltb_ℤ (pos (fnv1a32 (codes "beta:é") % 100)) (pos 50)
unfolding is_user_in_rollout fnv1a32
parted h = cc h
