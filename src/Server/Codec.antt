-- ===== src/Server/Codec.antt =====
-- A codec that can stand for the JSON of Go and of the browser in tests: each flag is read back
-- from its text.
use feature_flag_system.Prelude.{
  ℕ, zero, suc, Text, Bool, true, false, List, [], ◌∷◌, ◌++◌, Option, none, some, ℤ, pos, negsuc,
  ◌≡◌, refl, ap, length, take, drop, or_else, is_empty,
}
use feature_flag_system.Types.{FlagConfig, UpdateFlagInput}
use mathlib.Core.Option

-- A text after its length.
put_text : Text → Text → Text
put_text t rest = length t ∷ t ++ rest

get_text : Text → Text × Text
get_text [] = ([], [])
get_text (n ∷ s) = (take n s, drop n s)

take_own : (t rest : Text) → take (length t) (t ++ rest) ≡ t
take_own [] rest = refl
take_own (c ∷ t) rest = ap (λ s. c ∷ s) (take_own t rest)

drop_own : (t rest : Text) → drop (length t) (t ++ rest) ≡ rest
drop_own [] rest = refl
drop_own (c ∷ t) rest = drop_own t rest

get-put : (t rest : Text) → get_text (put_text t rest) ≡ (t, rest)
unfolding get_text put_text
get-put t rest = rw (take_own t rest, drop_own t rest) refl

put_texts : List Text → Text
put_texts [] = []
put_texts (t ∷ ts) = put_text t (put_texts ts)

get_texts : ℕ → Text → List Text
get_texts zero s = []
get_texts (suc n) s = let (t, rest) = get_text s in t ∷ get_texts n rest

get-put_texts : (ts : List Text) → get_texts (length ts) (put_texts ts) ≡ ts
unfolding get_texts put_texts
get-put_texts [] = refl
get-put_texts (t ∷ ts) = rw (get-put t (put_texts ts)) (ap (λ us. t ∷ us) (get-put_texts ts))

bit : Bool → ℕ
bit true = 1
bit false = 0

to_bool : ℕ → Bool
to_bool zero = false
to_bool (suc n) = true

sign : ℤ → ℕ
sign (pos n) = 0
sign (negsuc n) = 1

size : ℤ → ℕ
size (pos n) = n
size (negsuc n) = n

to_integer : ℕ → ℕ → ℤ
to_integer zero n = pos n
to_integer (suc s) n = negsuc n

pub flag_text : FlagConfig → Text
flag_text f =
    bit f.enabled
    ∷ f.version
    ∷ sign f.rollout_percentage
    ∷ size f.rollout_percentage
    ∷ length f.targeted_users
    ∷ put_text f.id (put_text f.key (put_text f.description (put_texts f.targeted_users)))

pub read_flag : Text → Option FlagConfig
read_flag (e ∷ v ∷ g ∷ n ∷ c ∷ s) =
    let (id, s1) = get_text s in
    let (key, s2) = get_text s1 in
    let (description, s3) = get_text s2 in
    some (record {
      id = id;
      key = key;
      description = description;
      enabled = to_bool e;
      rollout_percentage = to_integer g n;
      targeted_users = get_texts c s3;
      version = v;
    })
read_flag s = none

bit_back : (b : Bool) → to_bool (bit b) ≡ b
unfolding to_bool bit
bit_back true = refl
bit_back false = refl

sign_back : (p : ℤ) → to_integer (sign p) (size p) ≡ p
unfolding to_integer sign size
sign_back (pos n) = refl
sign_back (negsuc n) = refl

pub flag_read : (f : FlagConfig) → read_flag (flag_text f) ≡ some f
unfolding read_flag flag_text
flag_read f =
    let s3 = put_texts f.targeted_users in
    let s2 = put_text f.description s3 in
    rw
      (
        get-put f.id (put_text f.key s2),
        get-put f.key s2,
        get-put f.description s3,
        get-put_texts f.targeted_users,
        bit_back f.enabled,
        sign_back f.rollout_percentage,
      )
      refl

-- The same for the body of an update, whose fields may be missing.
given {ℓ} : {A : Type ℓ} → Option A → ℕ
given none = 0
given (some a) = 1

if_given {ℓ} : {A : Type ℓ} → ℕ → A → Option A
if_given zero a = none
if_given (suc n) a = some a

given_back {ℓ} : {A : Type ℓ} (o : Option A) (d : A) → if_given (given o) (or_else o d) ≡ o
unfolding given if_given
given_back none d = refl
given_back (some a) d = refl

abbrev values : UpdateFlagInput → FlagConfig
values u = record {
  id = [];
  key = [];
  description = or_else u.description [];
  enabled = or_else u.enabled false;
  rollout_percentage = or_else u.rollout_percentage (pos 0);
  targeted_users = or_else u.targeted_users [];
  version = 0;
}

pub input_text : UpdateFlagInput → Text
input_text u =
    given u.description
    ∷ given u.enabled
    ∷ given u.rollout_percentage
    ∷ given u.targeted_users
    ∷ flag_text (values u)

of_values : (d e p t : ℕ) → FlagConfig → UpdateFlagInput
of_values d e p t c = record {
  description = if_given d c.description;
  enabled = if_given e c.enabled;
  rollout_percentage = if_given p c.rollout_percentage;
  targeted_users = if_given t c.targeted_users;
}

pub read_input : Text → Option UpdateFlagInput
unfolding of_values
read_input (d ∷ e ∷ p ∷ t ∷ s) = Option.map (of_values d e p t) (read_flag s)
read_input s = none

pub input_read : (u : UpdateFlagInput) → read_input (input_text u) ≡ some u
unfolding read_input input_text
input_read u =
    rw
      (
        flag_read (values u),
        given_back u.description [],
        given_back u.enabled false,
        given_back u.rollout_percentage (pos 0),
        given_back u.targeted_users [],
      )
      refl

pub input_text-full : (u : UpdateFlagInput) → is_empty (input_text u) ≡ false
unfolding input_text
input_text-full u = refl
