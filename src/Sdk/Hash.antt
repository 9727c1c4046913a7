-- ===== src/Sdk/Hash.antt =====
-- `fnv1a32` of frontend/sdk/FeatureFlagClient.ts and `rolloutBucket` of frontend/lib/evaluate.ts.
-- A 32-bit value is its bit pattern, a number below 2 ^ 32: `^=` and `Math.imul` give signed
-- values with the same pattern, which `>>> 0` reads back as unsigned.
use Prim.Native.Nat.{bit_xor}
use feature_flag_system.Prelude.{ℕ, ◌*◌, ◌%◌, ◌<◌, ◌≡◌, refl, Text, codes, [], ◌∷◌, ◌++◌, arith}

abbrev pub fnv_offset : ℕ
fnv_offset = 0x811c9dc5

abbrev pub fnv_prime : ℕ
fnv_prime = 0x01000193

-- The pattern of `Math.imul(a, b)`.
imul : ℕ → ℕ → ℕ
imul a b = a * b % 4294967296

-- The loop over `input`, from the hash so far.
unfoldable pub fnv_loop : ℕ → Text → ℕ
unfolding imul
fnv_loop hash [] = hash
fnv_loop hash (c ∷ input) = fnv_loop (imul (bit_xor hash c) fnv_prime) input

unfoldable pub fnv1a32 : Text → ℕ
unfolding fnv_loop
fnv1a32 input = fnv_loop fnv_offset input

unfoldable pub rollout_bucket : Text → Text → ℕ
unfolding fnv1a32
rollout_bucket flag_key user_id = fnv1a32 (flag_key ++ b':' ∷ user_id) % 100

fnv_loop-lt : (hash : ℕ) (input : Text) → hash < 4294967296 → fnv_loop hash input < 4294967296
unfolding fnv_loop
fnv_loop-lt hash [] h = h
fnv_loop-lt hash (c ∷ input) h =
    fnv_loop-lt (imul (bit_xor hash c) fnv_prime) input (unfold imul in omega arith)

-- The hash is an unsigned 32-bit number, whatever the input.
pub fnv1a32-lt : (input : Text) → fnv1a32 input < 4294967296
unfolding fnv1a32
fnv1a32-lt input = fnv_loop-lt fnv_offset input (omega arith)

-- A bucket is one of the hundred.
pub rollout_bucket-lt : (flag_key user_id : Text) → rollout_bucket flag_key user_id < 100
unfolding rollout_bucket
rollout_bucket-lt flag_key user_id = omega arith

-- Published FNV-1a vectors.
fnv1a32_vectors :
    (fnv1a32 [] ≡ 0x811c9dc5)
    × (fnv1a32 (codes "a") ≡ 0xe40c292c)
    × (fnv1a32 (codes "foobar") ≡ 0xbf9cf968)
unfolding fnv1a32
fnv1a32_vectors = (refl, refl, refl)
