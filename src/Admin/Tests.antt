-- ===== src/Admin/Tests.antt =====
-- Admin requests at concrete inputs.
use feature_flag_system.Prelude.{◌≡◌, refl, [], ℕ, Text, codes, none, some}
use feature_flag_system.Admin.{
  Net, Request, Response, ErrorBody, message, thrown, outcome_of, update_flag,
}

abbrev conflict : Response
conflict = record { status = 409; content_type = none; body = codes "taken" }

-- A backend that answers a conflict to whatever it is asked.
abbrev stubborn : Net
stubborn req = some conflict

-- A reader of error bodies that takes the body for the message.
abbrev read_error : Text → ErrorBody
read_error body = message (some body)

abbrev status_text : ℕ → Text
status_text status = []

abbrev save : Request
save = update_flag (codes "7") (codes "{}") (some 4)

conflict_heard : outcome_of read_error status_text conflict ≡ thrown (codes "taken")
unfolding outcome_of
conflict_heard = refl
