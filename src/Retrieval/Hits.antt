-- ===== src/Retrieval/Hits.antt =====
-- The values that the steps of hybrid.py hand on: `_FusedHit`, `_ProductMeta` and `_ChunkMeta`.
use torque_finder.Prelude.{map, ℕ, String, Bool, Option, List, string_eq, nat_eq}
use torque_finder.Floats.{Floats}

-- `_ProductMeta`
pub record ProductMeta : Type 0 where
  pub family : Option String
  pub brand : Option String

-- `_ChunkMeta`
pub record ChunkMeta : Type 0 where
  pub chunk_id : ℕ
  pub document_id : ℕ
  pub ordinal : ℕ
  pub text : String
  pub is_pdf : Bool

module _ ⦃fl : Floats⦄ where
  open fl use {Float}

  -- `_FusedHit`
  pub record FusedHit : Type 0 where
    pub chunk_id : ℕ
    pub score : Float

  abbrev pub ids : List FusedHit → List ℕ
  ids = map (λ hit. hit.chunk_id)
