-- ===== src/Api/Route/Statuses.antt =====
-- The HTTP status of a failed call of the upstream.
use torque_finder.Prelude.{
  ℕ, ◌≡◌, Bool, true, false, not, ◌&&◌, ◌||◌, Option, none, some, arith, if◌then◌else◌, string_eq,
  nat_eq,
}
use torque_finder.Extraction.Client.{ApiError}
use torque_finder.Extraction.Upstream.{classify_upstream_error}
use torque_finder.Extraction.Upstream.Classes.{is_transient, is_refused, is_out_of_credit}
use torque_finder.Api.Services.{Served, served, http_error, escaped, extraction_failure}

-- The upstream is overloaded or cannot be reached, the request was refused, the account is out of
-- credit, or the server failed: all but a malformed request and an unknown failure.
abbrev pub is_outage : ApiError → Bool
is_outage exc =
    is_transient exc
    || is_refused exc
    || (if exc.is_bad_request then is_out_of_credit exc else exc.is_internal_server)

abbrev pub status_of : {A : Type 0} → Served A → Option ℕ
status_of (served _) = none
status_of (http_error status _) = some status
status_of (escaped _) = none

-- Whether the client is told when to retry.
abbrev pub has_retry_after : {A : Type 0} → Served A → Bool
has_retry_after (http_error _ (some _)) = true
has_retry_after _ = false

-- An API error of the SDK is answered with 503 for an outage and with 502 for any other failure,
-- never with another status, and the answer names a time to retry exactly for a failure that is
-- transient, or of a server and neither refused nor a bad request.
pub extraction_failure-classify :
    (A : Type 0) (exc : ApiError)
    → (status_of {A = A} (extraction_failure (classify_upstream_error exc))
        ≡ some (if is_outage exc then 503 else 502))
      × (has_retry_after {A = A} (extraction_failure (classify_upstream_error exc))
          ≡ is_transient exc
            || not (is_refused exc) && not exc.is_bad_request && exc.is_internal_server)
unfolding extraction_failure classify_upstream_error
extraction_failure-classify A exc = ground arith
