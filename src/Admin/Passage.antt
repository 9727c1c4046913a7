-- ===== src/Admin/Passage.antt =====
-- The proxy of frontend/lib/admin-proxy.ts is transparent for frontend/lib/api.ts.
use feature_flag_system.Prelude.{
  ◌≡◌, ◌++◌, ℕ, Text, false, Option, none, some, is_empty, codes, arith,
}
use feature_flag_system.Admin.{
  Net, put, Request, Response, ErrorBody, message, thrown, request, as_json, proxy_admin, forwarded,
  outcome_of, update_flag, etag, flag_route, backend_path,
}

-- The browser's network when every request goes through the proxy.
abbrev pub proxied : Net → Text → Text → Net
proxied backend key path req = some (proxy_admin backend key req path)

-- A backend that answers is heard as if it had been asked directly: the browser gets the same
-- result, parsed body or error message or nothing, whatever the status, conflicts and failures
-- included, and whatever headers the answer lacks.
pub proxied_transparent :
    (backend : Net) (key path : Text) (read_error : Text → ErrorBody) (status_text : ℕ → Text)
    (req : Request) (res : Response)
    → backend (forwarded key path (as_json req)) ≡ some res
    → request (proxied backend key path) read_error status_text req
      ≡ outcome_of read_error status_text res
unfolding request outcome_of proxy_admin
proxied_transparent backend key path read_error status_text req res h = ground arith

-- A backend that cannot be reached gives the browser an error whose text is the message that the
-- proxy puts in its answer, when the parser of error bodies finds that message there.
pub proxied_unreachable :
    (backend : Net) (key path : Text) (read_error : Text → ErrorBody) (status_text : ℕ → Text)
    (req : Request)
    → backend (forwarded key path (as_json req)) ≡ none
    → read_error (codes "{\"message\":\"Upstream unreachable\"}")
      ≡ message (some (codes "Upstream unreachable"))
    → request (proxied backend key path) read_error status_text req
      ≡ thrown (codes "Upstream unreachable")
unfolding request outcome_of proxy_admin
proxied_unreachable backend key path read_error status_text req h r = ground (arith, h, r)

-- An update reaches the backend as a PUT with the input as its body and the admin key, and with
-- the version in If-Match exactly when the caller gave one.
pub update_forwarded :
    (encode : Text → Text) (key id input : Text) (version : Option ℕ)
    → is_empty input ≡ false
    → forwarded key (backend_path encode (flag_route id)) (as_json (update_flag id input version))
      ≡ record {
        method = put;
        path = codes "/api/admin/flags/" ++ encode id;
        headers = record {
          content_type = some (codes "application/json");
          if_match = elim version [ none ↦ none | some v ↦ some (etag v) ];
          admin_key = some key;
        };
        body = input;
      }
unfolding forwarded update_flag backend_path
update_forwarded encode key id input none h = rw h
update_forwarded encode key id input (some v) h = rw h
