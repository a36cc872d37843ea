-- ===== src/Extraction/Upstream/Classes.antt =====
-- Which failures of the SDK become which error of the domain.
use torque_finder.Prelude.{◌≡◌, Bool, true, false, not, ◌&&◌, ◌||◌, arith, string_eq, nat_eq}
use torque_finder.Text.{contains, lower}
use torque_finder.Domain.Errors.{
  Exn, upstream_unavailable, upstream_unauthorized, is_extraction_error,
}
use torque_finder.Extraction.Client.{ApiError}
use torque_finder.Extraction.Upstream.{credit_balance_marker, classify_upstream_error}

abbrev pub is_unavailable : Exn → Bool
is_unavailable (upstream_unavailable _ _ _) = true
is_unavailable _ = false

abbrev pub is_unauthorized : Exn → Bool
is_unauthorized (upstream_unauthorized _ _) = true
is_unauthorized _ = false

-- No answer at all, or an overloaded or rate-limited service.
abbrev pub is_transient : ApiError → Bool
is_transient exc = exc.is_overloaded || exc.is_rate_limit || exc.is_connection

-- A request that was refused for its sender or its size.
abbrev pub is_refused : ApiError → Bool
is_refused exc = exc.is_authentication || exc.is_permission_denied || exc.is_request_too_large

abbrev pub is_out_of_credit : ApiError → Bool
is_out_of_credit exc = contains credit_balance_marker (lower exc.message)

-- The result is the transient error exactly for a transient failure, and for a server failure that
-- is neither refused nor a bad request; it is the operator's error exactly for a failure that is
-- not transient, and is either refused or a bad request that names the credit balance; and it is
-- always an `ExtractionError`.
pub classify_upstream_error-classes :
    (exc : ApiError)
    → (is_unavailable (classify_upstream_error exc)
        ≡ is_transient exc
          || not (is_refused exc) && not exc.is_bad_request && exc.is_internal_server)
      × ((is_unauthorized (classify_upstream_error exc)
            ≡ not (is_transient exc)
              && (is_refused exc || exc.is_bad_request && is_out_of_credit exc))
          × (is_extraction_error (classify_upstream_error exc) ≡ true))
unfolding classify_upstream_error
classify_upstream_error-classes exc = ground arith
