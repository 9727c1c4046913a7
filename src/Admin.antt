-- ===== src/Admin.antt =====
-- The way of an admin request: frontend/lib/api.ts in the browser and frontend/lib/admin-proxy.ts
-- in the Next server. What the backend answers is a parameter. Header names are data; a header
-- value, a body and a path are texts.
pub mod Passage
mod Tests
use feature_flag_system.Prelude.{
  ◌≡◌, refl, ◌++◌, ◌∷◌, [], ℕ, Text, Bool, true, false, not, ◌&&◌, ◌||◌, List, Option, none, some,
  ◌==◌, ltb, leb, is_empty, is_none, or_else, if◌then◌else◌, codes, arith, decimal,
}

pub data Method : Type 0 where
  get post put patch delete : Method

-- The headers that the program sets or reads.
pub record Headers : Type 0 where
  pub content_type : Option Text
  pub if_match : Option Text
  pub admin_key : Option Text

abbrev pub no_headers : Headers
no_headers = record { content_type = none; if_match = none; admin_key = none }

pub record Request : Type 0 where
  pub method : Method
  pub path : Text
  pub headers : Headers
  pub body : Text

pub record Response : Type 0 where
  pub status : ℕ
  pub content_type : Option Text
  pub body : Text

-- `fetch`: a response, or none when the server cannot be reached.
abbrev pub Net : Type 0
Net = Request → Option Response

-- `method === "POST" || method === "PUT" || method === "PATCH"`
abbrev pub has_body : Method → Bool
has_body post = true
has_body put = true
has_body patch = true
has_body _ = false

-- A header that is missing or empty is not passed on.
abbrev passed : Option Text → Option Text
passed none = none
passed (some t) = if is_empty t then none else some t

unfoldable pub forwarded : Text → Text → Request → Request
forwarded key backend_path req =
    let body = if has_body req.method then req.body else [] in
    record {
      method = req.method;
      path = backend_path;
      headers = record {
        content_type = if is_empty body then none else some (codes "application/json");
        if_match = passed req.headers.if_match;
        admin_key = some key;
      };
      body = body;
    }

-- `proxyAdmin(req, backendPath)`
unfoldable pub proxy_admin : Net → Text → Request → Text → Response
unfolding forwarded
proxy_admin backend key req backend_path = elim (backend (forwarded key backend_path req)) [
  | none ↦ record {
    status = 502;
    content_type = some (codes "application/json");
    body = codes "{\"message\":\"Upstream unreachable\"}";
  }
  | some res ↦
      if res.status == 204
      then record { status = 204; content_type = none; body = [] }
      else record {
        status = res.status;
        content_type = elim res.content_type [
          | none ↦ some (codes "application/json")
          | some t ↦ some (if is_empty t then codes "application/json" else t)
        ];
        body = res.body;
      }
]

-- A failure that `request` throws, or what it returns: nothing for 204, else the body to parse.
pub data Outcome : Type 0 where
  unreachable : Outcome
  thrown : Text → Outcome
  nothing : Outcome
  parsed : Text → Outcome

-- What `res.json()` finds under `message` of an error body: the body does not parse, or it parses
-- and has a message or none. The parser is a parameter.
pub data ErrorBody : Type 0 where
  garbled : ErrorBody
  message : Option Text → ErrorBody

-- `error.message || \`Request failed: ${res.status}\``
abbrev error_text : ErrorBody → Text → ℕ → Text
error_text garbled text status =
    if is_empty text then codes "Request failed: " ++ decimal status else text
error_text (message m) text status =
    if is_empty (or_else m []) then codes "Request failed: " ++ decimal status else or_else m []

-- What `request` makes of a response.
unfoldable pub outcome_of : (Text → ErrorBody) → (ℕ → Text) → Response → Outcome
outcome_of read_error status_text res =
    if not (leb 200 res.status && leb res.status 299)
    then thrown (error_text (read_error res.body) (status_text res.status) res.status)
    else if res.status == 204
    then nothing
    else parsed res.body

-- The request that is sent: with the content type of JSON.
abbrev pub as_json : Request → Request
as_json req = record req {
  headers = record req.headers { content_type = some (codes "application/json") };
}

-- `request(path, options)`
unfoldable pub request : Net → (Text → ErrorBody) → (ℕ → Text) → Request → Outcome
unfolding outcome_of
request net read_error status_text req = elim (net (as_json req)) [
  | none ↦ unreachable
  | some res ↦ outcome_of read_error status_text res
]

abbrev plain : Method → Text → Text → Request
plain method path body = record { method = method; path = path; headers = no_headers; body = body }

-- The requests of the methods of FlagAPI; `input` is the input as JSON.
unfoldable pub list_flags : Request
list_flags = plain get (codes "/api/admin/flags") []

unfoldable pub get_flag : Text → Request
get_flag id = plain get (codes "/api/admin/flags/" ++ id) []

unfoldable pub get_flag_history : Text → Request
get_flag_history id = plain get (codes "/api/admin/flags/" ++ id ++ codes "/events") []

unfoldable pub create_flag : Text → Request
create_flag input = plain post (codes "/api/admin/flags") input

-- The version in the quotes of an entity tag.
abbrev pub etag : ℕ → Text
etag v = b'"' ∷ decimal v ++ b'"' ∷ []

unfoldable pub update_flag : Text → Text → Option ℕ → Request
update_flag id input expected_version = record {
  method = put;
  path = codes "/api/admin/flags/" ++ id;
  headers = record no_headers {
    if_match = elim expected_version [ none ↦ none | some v ↦ some (etag v) ];
  };
  body = input;
}

unfoldable pub delete_flag : Text → Request
delete_flag id = plain delete (codes "/api/admin/flags/" ++ id) []

unfoldable pub toggle_flag : Text → Request
toggle_flag id = plain patch (codes "/api/admin/flags/" ++ id ++ codes "/toggle") []

-- The route handlers of frontend/app/api/admin: the path that each asks the backend for.
-- `encodeURIComponent` is a parameter.
pub data Route : Type 0 where
  flags_route : Route
  flag_route events_route toggle_route : Text → Route

unfoldable pub backend_path : (Text → Text) → Route → Text
backend_path encode flags_route = codes "/api/admin/flags"
backend_path encode (flag_route id) = codes "/api/admin/flags/" ++ encode id
backend_path encode (events_route id) = codes "/api/admin/flags/" ++ encode id ++ codes "/events"
backend_path encode (toggle_route id) = codes "/api/admin/flags/" ++ encode id ++ codes "/toggle"
