-- ===== src/Extraction/Gate.antt =====
-- `_is_out_of_corpus` and `_abstain`.
pub mod Abstains
use torque_finder.Prelude.{
  String, Bool, true, false, not, Option, none, some, List, if◌then◌else◌, any, ◌==◌, string_eq,
  nat_eq,
}
use torque_finder.Floats.{Floats}
use torque_finder.Domain.Scope.{ProductScope, unidentified, is_identified}
use torque_finder.Domain.Answer.{Answer}
use torque_finder.ProductMatch.Sets.{HashOrder}
use torque_finder.ProductMatch.Scopes.{normalize_product, extract_query_scope, scope_matches}
use torque_finder.Extraction.Client.{ExtractionCandidate}

-- The scope of a candidate; an empty title counts as none.
unfoldable pub candidate_scope : ⦃h : HashOrder⦄ → Option String → ProductScope
candidate_scope none = unidentified
candidate_scope (some title) = if title == "" then unidentified else normalize_product title

-- `_is_out_of_corpus`
unfoldable pub is_out_of_corpus : ⦃h : HashOrder⦄ → String → List ExtractionCandidate → Bool
is_out_of_corpus query candidates =
    let asked = extract_query_scope query in
    if not (is_identified asked)
    then false
    else not (any (λ c. scope_matches asked (candidate_scope c.document_title)) candidates)

-- `_ABSTAIN_TEXT`
abbrev pub abstain_text : String
abstain_text =
    "I don't have a manual for that product in the corpus, so I can't give a torque or tool size for it. Try the exact manufacturer and model as named in a SRAM, RockShox, Avid, Zipp, or Quarq service manual."

module _ ⦃fl : Floats⦄ where
  open fl use {Float, decimal}

  -- `_abstain`
  abbrev pub abstention : Answer
  abstention = record {
    text = abstain_text;
    tool_size = none;
    torque = none;
    source_index = none;
    confidence = decimal 3 1;
    abstained = true;
  }
