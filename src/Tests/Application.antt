-- ===== src/Tests/Application.antt =====
-- Requests to the whole application.
use chargeback_iq.Prelude.{String, none, some, true, false, [], ◌∷◌, ◌≡◌, refl, ◌==◌, dec_text}
use chargeback_iq.Services.Calls.{Reach}
use chargeback_iq.Routes.{not_found_handler, refusal, internal_error}
use chargeback_iq.Routes.App.{Setup, HttpRequest, get, post, handle, route, api, rate_limited}
use chargeback_iq.Routes.App.Runs.{handle_reads, handle-Reach}
use chargeback_iq.Routes.App.Unmatched.{is_route, handle_unmatched}
use chargeback_iq.Tests.World.{env, opened_db}
use chargeback_iq.Tests.Requests.{z}
use chargeback_iq.Tests.Webhooks.{platform}
use chargeback_iq.Tests.Programmes.{even, rounding}

abbrev setup : Setup String
setup = record {
  schemas = z;
  compliance_query = λ s. none;
  id_param = λ s. s;
  same_segment = λ s t. s == t;
  rounding = rounding;
  calendar = even;
  platform = platform;
}

-- GET /api/disputes/u0
abbrev page_request : HttpRequest String
page_request = record {
  method = get;
  path = "/api/disputes/u0";
  segments = "api" ∷ "disputes" ∷ "u0" ∷ [];
  query = "";
  raw_body = none;
  json = some "";
  timestamp = none;
  signature = none;
  webhook_id = none;
  is_limited = false;
  ping = none;
  uptime_seconds = 1;
}

-- POST /api/disputes/u0/status
abbrev review_request : HttpRequest String
review_request = record page_request {
  method = post;
  path = "/api/disputes/u0/status";
  segments = "api" ∷ "disputes" ∷ "u0" ∷ "status" ∷ [];
  json = some "UNDER_REVIEW";
}

-- GET /api/nothing
abbrev lost_request : HttpRequest String
lost_request = record page_request { path = "/api/nothing"; segments = "api" ∷ "nothing" ∷ [] }

handle_reads_example : (handle setup env page_request opened_db).1 ≡ opened_db
handle_reads_example = handle_reads setup env page_request opened_db refl

handle-Reach_example : Reach opened_db (handle setup env review_request opened_db).1
handle-Reach_example = handle-Reach setup env review_request opened_db

unmatched_path : is_route setup.same_segment true false lost_request.segments ≡ false
unfolding dec_text
unmatched_path = refl

handle_unmatched_test :
    handle setup env lost_request opened_db ≡ (not_found_handler "GET" "/api/nothing", opened_db)
handle_unmatched_test =
    handle_unmatched setup env lost_request "" opened_db unmatched_path refl refl

-- A body that is no JSON is answered as an unexpected error, also on a path that no route has.
malformed_body :
    handle setup env (record lost_request { json = none }) opened_db
    ≡ (refusal 500 internal_error, opened_db)
unfolding handle
malformed_body = refl

-- The limiter comes before the routes.
too_many :
    handle setup env (record review_request { is_limited = true }) opened_db
    ≡ (refusal 429 rate_limited, opened_db)
unfolding handle route api dec_text
too_many = refl
