-- ===== src/Retrieval/Rerank.antt =====
-- `_tokens`, `_title_boost`, `_rerank_by_title`, `_product_delta`, `_rerank_by_product` and
-- `_rerank_within_doc`.
use torque_finder.Text.Regex.{CharTables, search_in, torque_pattern}
pub mod Bounds
pub mod Order
use torque_finder.Prelude.{
  ℕ, zero, suc, ◌+◌, ◌-◌, ◌*◌, ◌≤◌, ◌<◌, String, ◌≡◌, ◌≢◌, refl, sym, ap, ◌∙◌, subst, ◌↔◌, ◌⊎◌, inl,
  inr, Bool, true, false, not, ◌&&◌, ◌||◌, Option, none, some, List, [], ◌∷◌, ◌++◌, arith, eq_iff,
  if◌then◌else◌, Bool-cases, Option-cases, length, take, any, all, keep, first, In, Before, All,
  is_some, is_none, leb, ltb, ◌==◌, string_eq, nat_eq,
}
use torque_finder.Prelude.{Dict, get}
use torque_finder.Prelude.Sort.{sort_by}
use torque_finder.Floats.{Floats}
use torque_finder.Floats.Order.{fzero, fmin}
use torque_finder.Text
use torque_finder.Domain.Scope.{ProductScope, is_identified}
use torque_finder.ProductMatch.Sets.{HashOrder, member, dedup}
use torque_finder.ProductMatch.Scopes.{extract_query_scope, scope_matches}
use torque_finder.Retrieval.Hits.{ProductMeta, ChunkMeta, FusedHit}
use torque_finder.Retrieval.Fusion.{or_else}

-- `_RERANK_STOPWORDS`
abbrev pub rerank_stopwords : List String
rerank_stopwords =
    "the" ∷ "a" ∷ "an" ∷ "and" ∷ "or" ∷ "of" ∷ "for" ∷ "to" ∷ "on" ∷ "in" ∷ "with" ∷ "my" ∷ "what"
    ∷ "how" ∷ "do" ∷ "does" ∷ "i" ∷ "is" ∷ "it" ∷ "should" ∷ "user" ∷ "manual" ∷ "guide" ∷ "torque"
    ∷ "spec" ∷ "specs" ∷ "bolt" ∷ "size" ∷ "tool" ∷ []

-- `_tokens`: a set.
unfoldable pub tokens : String → List String
tokens s = dedup (keep (λ t. not (member t rerank_stopwords)) (Text.tokens s))

-- `len(a & b)`
abbrev pub overlap : List String → List String → ℕ
overlap a b = length (keep (λ t. member t b) a)

abbrev pub is_empty {ℓ} : {A : Type ℓ} → List A → Bool
is_empty [] = true
is_empty (_ ∷ _) = false

-- The scope that `_product_delta` builds from a stored facet.
abbrev pub facet_scope : ProductMeta → ProductScope
facet_scope facet = record {
  family = facet.family;
  brand = facet.brand;
  confidence = if is_some facet.family then 90 else 60;
}

module _ ⦃fl : Floats⦄ where
  open fl use {Float, fle, fadd, fneg, times, decimal}

  -- `TITLE_TOKEN_BOOST`, `TITLE_BOOST_CAP`, `PRODUCT_MATCH_BOOST`, `PRODUCT_MISMATCH_PENALTY` and
  -- `RERANK_BONUS`
  abbrev pub title_token_boost : Float
  title_token_boost = decimal 5 4

  abbrev pub title_boost_cap : Float
  title_boost_cap = decimal 15 4

  abbrev pub product_match_boost : Float
  product_match_boost = decimal 5 4

  abbrev pub product_mismatch_penalty : Float
  product_mismatch_penalty = decimal 5 4

  abbrev pub rerank_bonus : Float
  rerank_bonus = decimal 5 4

  -- `sorted(fused, key=boosted, reverse=True)`
  abbrev pub by_key : (FusedHit → Float) → FusedHit → FusedHit → Bool
  by_key key a b = fle (key b) (key a)

  unfoldable pub title_boost : List String → String → Float
  title_boost query_tokens document_title =
      if is_empty query_tokens
      then fzero
      else fmin (times (overlap query_tokens (tokens document_title)) title_token_boost)
          title_boost_cap

  unfoldable pub title_key : List String → Dict ℕ String → FusedHit → Float
  title_key query_tokens titles hit =
      fadd hit.score (title_boost query_tokens (or_else (get titles hit.chunk_id) ""))

  unfoldable pub rerank_by_title : String → List FusedHit → Dict ℕ String → List FusedHit
  rerank_by_title query_text fused titles =
      if is_empty (tokens query_text)
      then fused
      else sort_by (by_key (title_key (tokens query_text) titles)) fused

  unfoldable pub product_delta : ProductScope → ProductMeta → Float
  product_delta asked facet =
      if not (is_identified (facet_scope facet))
      then fzero
      else if scope_matches asked (facet_scope facet)
      then product_match_boost
      else fneg product_mismatch_penalty

  unfoldable pub product_key : ProductScope → Dict ℕ ProductMeta → FusedHit → Float
  product_key asked facets hit = elim (get facets hit.chunk_id) [
    | none ↦ hit.score
    | some facet ↦ fadd hit.score (product_delta asked facet)
  ]

  unfoldable pub rerank_by_product :
      ⦃h : HashOrder⦄ → String → List FusedHit → Dict ℕ ProductMeta → List FusedHit
  rerank_by_product query_text fused facets =
      let asked = extract_query_scope query_text in
      if not (is_identified asked) then fused else sort_by (by_key (product_key asked facets)) fused

  -- `matches_fastener_spec`
  unfoldable pub matches_fastener_spec : ⦃u : CharTables⦄ → List String → ChunkMeta → Bool
  matches_fastener_spec query_tokens m =
      if not (search_in torque_pattern m.text)
      then false
      else any (λ t. member t (tokens m.text)) query_tokens

  unfoldable pub fastener_key :
      ⦃u : CharTables⦄ → List String → Dict ℕ ChunkMeta → ℕ → FusedHit → Float
  fastener_key query_tokens meta leader_doc_id hit = elim (get meta hit.chunk_id) [
    | none ↦ hit.score
    | some m ↦
        if not (m.document_id == leader_doc_id) || not m.is_pdf
        then hit.score
        else fadd hit.score (if matches_fastener_spec query_tokens m then rerank_bonus else fzero)
  ]

  unfoldable pub rerank_within_doc :
      ⦃u : CharTables⦄ → String → List FusedHit → Dict ℕ ChunkMeta → ℕ → List FusedHit
  rerank_within_doc query_text fused meta leader_doc_id =
      if is_empty (tokens query_text)
      then fused
      else sort_by (by_key (fastener_key (tokens query_text) meta leader_doc_id)) fused
