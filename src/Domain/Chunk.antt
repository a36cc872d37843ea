-- ===== src/Domain/Chunk.antt =====
-- `SourceType` and `RetrievedChunk` of domain/models.py. Ids and ordinals are the database's,
-- and not negative.
use torque_finder.Prelude.{◌≡◌, ◌↔◌, arith, ℕ, String, Bool, true, false, Option, string_eq, nat_eq}
use torque_finder.Floats.{Floats}

pub data SourceType : Type 0 where
  pdf html : SourceType

abbrev pub is_pdf : SourceType → Bool
is_pdf pdf = true
is_pdf html = false

-- `a == b` on source types.
abbrev pub same_type : SourceType → SourceType → Bool
same_type pdf pdf = true
same_type html html = true
same_type _ _ = false

pub same_type_iff : (a b : SourceType) → (same_type a b ≡ true) ↔ (a ≡ b)
same_type_iff pdf pdf = ground arith
same_type_iff pdf html = ground arith
same_type_iff html pdf = ground arith
same_type_iff html html = ground arith

pub data RetrievalSource : Type 0 where
  keyword vector hybrid : RetrievalSource

module _ ⦃fl : Floats⦄ where
  open fl use {Float}

  pub record RetrievedChunk : Type 0 where
    pub chunk_id : ℕ
    pub document_id : ℕ
    pub source_type : SourceType
    pub document_title : String
    pub document_source_url : String
    pub ordinal : ℕ
    pub text : String
    pub png_r2_key : Option String
    pub anchor : Option String
    pub parent_anchor : Option String
    pub source_url : String
    pub score : Float
    pub source : RetrievalSource
    pub product_family : Option String
    pub brand : Option String
