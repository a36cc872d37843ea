-- ===== src/Extraction/Extractor.antt =====
-- The state of a `ClaudeExtractor` and its operation `extract`.
pub mod Health
use Prim.Native.String
use torque_finder.Prelude.{
  ℕ, zero, suc, ◌+◌, ◌-◌, ◌*◌, ◌≤◌, ◌<◌, String, ◌≡◌, ◌≢◌, refl, sym, ap, ◌∙◌, subst, ◌↔◌, ◌⊎◌, inl,
  inr, Bool, true, false, not, ◌&&◌, ◌||◌, Option, none, some, List, [], ◌∷◌, ◌++◌, arith, eq_iff,
  if◌then◌else◌, Bool-cases, Option-cases, length, take, any, all, keep, first, In, Before, All,
  is_some, is_none, leb, ltb, ◌==◌, string_eq, nat_eq,
}
use torque_finder.Floats.{Floats}
use torque_finder.Text.{show}
use torque_finder.Text.Regex.{CharTables}
use torque_finder.ProductMatch.Sets.{HashOrder}
use torque_finder.Domain.Errors.{extraction_error, Result, ok, raised}
use torque_finder.Domain.Answer.{Answer}
use torque_finder.Extraction.Json.{Python}
use torque_finder.Extraction.Client.{
  ExtractionCandidate, UserBlock, Reply, replied, api_failure, other_failure, build_user_blocks,
  ◌cat◌,
}
use torque_finder.Extraction.Upstream.{classify_upstream_error}
use torque_finder.Extraction.Parse.{parse_response}

-- `_stub` and `_last_upstream_ok`.
pub record Extractor : Type 0 where
  pub stub : Bool
  pub last_upstream_ok : Bool

-- `__init__`
abbrev pub init : (stub_external_apis : Bool) → Extractor
init stub_external_apis = record { stub = stub_external_apis; last_upstream_ok = true }

-- The assignment to `_last_upstream_ok`.
abbrev pub set_upstream : Extractor → Bool → Extractor
set_upstream x b = record { stub = x.stub; last_upstream_ok = b }

-- `upstream_healthy`
abbrev pub upstream_healthy : Extractor → Bool
upstream_healthy x = x.last_upstream_ok

module _ ⦃fl : Floats⦄ where
  open fl use {Float, decimal}

  abbrev pub stub_answer : ExtractionCandidate → Answer
  stub_answer top = record {
    text =
        "[STUB EXTRACTION] Top candidate is source "
        cat show top.index
        cat " ("
        cat top.label
        cat "). Real Claude call skipped because STUB_EXTERNAL_APIS=true.";
    tool_size = none;
    torque = none;
    source_index = some top.index;
    confidence = decimal 5 1;
    abstained = false;
  }

  module _ ⦃py : Python⦄ ⦃h : HashOrder⦄ ⦃u : CharTables⦄ where
    -- From the reply of the SDK on.
    unfoldable pub finish :
        Extractor → String → List ExtractionCandidate → Reply → Extractor × Result Answer
    finish x query candidates (replied response) =
        (set_upstream x true, parse_response response candidates query)
    finish x query candidates (api_failure exc) =
        (set_upstream x false, raised (classify_upstream_error exc))
    finish x query candidates (other_failure e) = (x, raised e)

    -- The call of the SDK with the blocks of the request.
    abbrev pub send :
        (List UserBlock → Reply)
        → Extractor
        → String
        → List ExtractionCandidate
        → Result (List UserBlock)
        → Extractor × Result Answer
    send create x query candidates (raised e) = (x, raised e)
    send create x query candidates (ok user_blocks) = finish x query candidates (create user_blocks)

    -- `extract`
    unfoldable pub extract :
        (List UserBlock → Reply)
        → Extractor
        → String
        → List ExtractionCandidate
        → Extractor × Result Answer
    extract create x query [] =
        (x, raised (extraction_error "extract() requires at least one candidate source"))
    extract create x query (top ∷ more) =
        if x.stub
        then (x, ok (stub_answer top))
        else send create x query (top ∷ more) (build_user_blocks query (top ∷ more))
