-- ===== src/Server/Handlers/Tests.antt =====
-- A save at a short history, and headers at concrete inputs.
use feature_flag_system.Prelude.{
  Text, codes, none, some, pos, ◌≡◌, refl, arith, true, false, [], parse_int64,
}
use feature_flag_system.Types.{Flag, UpdateFlagInput}
use feature_flag_system.Admin
use feature_flag_system.Admin.{message, request, flag_route, backend_path}
use feature_flag_system.Admin.Passage.{proxied}
use feature_flag_system.Server.{empty_store}
use feature_flag_system.Server.Service
use feature_flag_system.Server.Service.{run_writes}
use feature_flag_system.Server.Forms.{update_request}
use feature_flag_system.Server.Codec.{input_text, read_input, input_read, input_text-full}
use feature_flag_system.Server.Tests.{history, id1, noon}
use feature_flag_system.Server.Handlers.{expected_version, contains}
use feature_flag_system.Server.Handlers.Saving.{update_backend, told, save_told}

expected_version_tests :
    (expected_version (some (codes "\"7\"")) ≡ some (pos 7))
    × (expected_version (some (codes "W/\"7\"")) ≡ none)
    × (expected_version none ≡ none)
unfolding expected_version parse_int64
expected_version_tests = (refl, refl, refl)

contains_tests :
    (contains (codes "it must be so") (codes "must be") ≡ true)
    × (contains (codes "it must") (codes "must be") ≡ false)
unfolding contains
contains_tests = (refl, refl)

abbrev change : UpdateFlagInput
change = record {
  description = none;
  enabled = some true;
  rollout_percentage = none;
  targeted_users = none;
}

abbrev description_of : Flag → Text
description_of f = f.description

abbrev secret : Text
secret = codes "secret"

save_told_example :
    let s = run_writes history empty_store in
    request
      (proxied
        (update_backend description_of (λ t m. m) (codes "timeout") read_input secret id1 noon s)
        secret
        (backend_path (λ i. i) (flag_route id1)))
      (λ b. message (some b))
      (λ n. [])
      (Admin.update_flag id1 (input_text change) (some 1))
    ≡ told description_of
        (Service.update_flag (update_request change (some (pos 1))) id1 noon s).reply
unfolding contains
save_told_example =
    save_told description_of (λ t m. m) (codes "timeout") read_input input_text
      (λ b. message (some b)) (λ n. []) input_read input_text-full (λ t m. refl) refl (λ i. i)
      secret id1 noon change 1 (run_writes history empty_store) (omega arith)
