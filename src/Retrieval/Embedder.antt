-- ===== src/Retrieval/Embedder.antt =====
-- retrieval/embedder.py. The Voyage client and the hash behind the stub embedding are parameters.
pub mod Batches
use torque_finder.Prelude.{
  ◌==◌, nat_eq, ℕ, zero, suc, ◌+◌, ◌-◌, ◌*◌, ◌≤◌, ◌<◌, String, ◌≡◌, ◌≢◌, refl, sym, ap, ◌∙◌, subst,
  ◌↔◌, ◌⊎◌, inl, inr, Bool, true, false, not, ◌&&◌, ◌||◌, Option, none, some, List, [], ◌∷◌, ◌++◌,
  arith, eq_iff, if◌then◌else◌, Bool-cases, Option-cases, length, take, any, all, keep, first, In,
  Before, All, is_some, is_none, leb, ltb, ◌==◌, string_eq, nat_eq, ◌/◌,
}
use torque_finder.Prelude.{map}
use torque_finder.Text.{len, clip}
use torque_finder.Domain.Errors.{
  retrieval_error, Result, builtin, index_error, ok, raised, ◌>>=◌, wrap,
}

-- `_MAX_BATCH_TEXTS`
abbrev pub max_batch_texts : ℕ
max_batch_texts = 96

-- `_MAX_BATCH_TOKENS`
abbrev pub max_batch_tokens : ℕ
max_batch_tokens = 100000

-- `_MAX_TEXT_CHARS`
abbrev pub max_text_chars : ℕ
max_text_chars = 96000

-- `_estimate_tokens`
unfoldable pub estimate_tokens : String → ℕ
estimate_tokens text = let third = len text / 3 in if leb 1 third then third else 1

-- The open batch has to be sent before a text of `est` tokens can be added.
abbrev pub is_full : List String → ℕ → ℕ → Bool
is_full [] batch_tokens est = false
is_full (b ∷ bs) batch_tokens est =
    leb max_batch_texts (length (b ∷ bs)) || ltb max_batch_tokens (batch_tokens + est)

module _ {Vector : Type 0} where
  -- The check of the response: none, or not as many embeddings as texts, is malformed.
  abbrev pub checked : List String → Option (List Vector) → Result (List Vector)
  checked texts none =
      raised (
        retrieval_error
          "Voyage embedding response was malformed (missing or short embeddings list)")
  checked texts (some embeddings) =
      if length embeddings == length texts
      then ok embeddings
      else raised (
          retrieval_error
            "Voyage embedding response was malformed (missing or short embeddings list)")

  -- `_embed`, with a stub that embeds text by text or with a client.
  unfoldable pub embed :
      (stub : Option (String → Vector)) (client : List String → Result (Option (List Vector)))
      → List String
      → Result (List Vector)
  embed (some stub_embed) client texts = ok (map stub_embed texts)
  embed none client texts =
      wrap (retrieval_error "Voyage embedding request failed") (client texts) >>= checked texts

  -- `vectors[0]`
  abbrev pub first_vector : List Vector → Result Vector
  first_vector [] = raised (builtin index_error)
  first_vector (v ∷ _) = ok v

  module _ (send : List String → Result (List Vector)) where
    -- `embed_query`
    unfoldable pub embed_query : String → Result Vector
    embed_query text = send (text ∷ []) >>= first_vector

    -- The last batch, if it is not empty.
    abbrev pub send_rest : List Vector → List String → Result (List Vector)
    send_rest vectors [] = ok vectors
    send_rest vectors (b ∷ bs) = send (b ∷ bs) >>= λ more. ok (vectors ++ more)

    -- The loop of `embed_documents`: the vectors so far, the open batch and its tokens.
    pub embed_batches : List Vector → List String → ℕ → List String → Result (List Vector)
    embed_batches vectors batch batch_tokens [] = send_rest vectors batch
    embed_batches vectors batch batch_tokens (text ∷ texts) =
        let clipped = clip max_text_chars text in
        let est = estimate_tokens clipped in
        elim (is_full batch batch_tokens est) [
          | true ↦ send batch >>= λ more. embed_batches (vectors ++ more) (clipped ∷ []) est texts
          | false ↦ embed_batches vectors (batch ++ (clipped ∷ [])) (batch_tokens + est) texts
        ]

    -- `embed_documents`
    unfoldable pub embed_documents : List String → Result (List Vector)
    unfolding embed_batches
    embed_documents texts = embed_batches [] [] 0 texts
