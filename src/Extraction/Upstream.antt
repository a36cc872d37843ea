-- ===== src/Extraction/Upstream.antt =====
-- `_classify_upstream_error` and `_retry_after_from`.
pub mod Classes
use torque_finder.Prelude.{
  ℕ, zero, suc, ◌+◌, ◌-◌, ◌*◌, ◌≤◌, ◌<◌, String, ◌≡◌, ◌≢◌, refl, sym, ap, ◌∙◌, subst, ◌↔◌, ◌⊎◌, inl,
  inr, Bool, true, false, not, ◌&&◌, ◌||◌, Option, none, some, List, [], ◌∷◌, ◌++◌, arith, eq_iff,
  if◌then◌else◌, Bool-cases, Option-cases, length, take, any, all, keep, first, In, Before, All,
  is_some, is_none, leb, ltb, ◌==◌, string_eq, nat_eq,
}
use torque_finder.Text.{contains, lower}
use torque_finder.Domain.Errors.{Exn, extraction_error, upstream_unavailable, upstream_unauthorized}
use torque_finder.Extraction.Client.{ApiError}

-- `_CREDIT_BALANCE_MARKER`
abbrev pub credit_balance_marker : String
credit_balance_marker = "credit balance is too low"

-- `_DEFAULT_RETRY_AFTER_SECONDS`
abbrev pub default_retry_after_seconds : String
default_retry_after_seconds = "5"

-- `_retry_after_from`
unfoldable pub retry_after_from : ApiError → Option String
retry_after_from exc = if exc.has_response then exc.retry_after_header else none

-- `_classify_upstream_error`
unfoldable pub classify_upstream_error : ApiError → Exn
classify_upstream_error exc =
    if exc.is_overloaded || exc.is_rate_limit
    then upstream_unavailable exc.status_code exc.request_id (retry_after_from exc)
    else if exc.is_connection
    then upstream_unavailable exc.status_code exc.request_id (some default_retry_after_seconds)
    else if exc.is_authentication || exc.is_permission_denied || exc.is_request_too_large
    then upstream_unauthorized exc.status_code exc.request_id
    else if exc.is_bad_request
    then (if contains credit_balance_marker (lower exc.message)
        then upstream_unauthorized exc.status_code exc.request_id
        else extraction_error "Anthropic rejected the request as malformed")
    else if exc.is_internal_server
    then upstream_unavailable exc.status_code exc.request_id (some default_retry_after_seconds)
    else extraction_error "Anthropic API call failed"
