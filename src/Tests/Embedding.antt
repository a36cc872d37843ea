-- ===== src/Tests/Embedding.antt =====
-- The batches of the embedding client.
use torque_finder.Prelude.{
  ℕ, String, ◌≡◌, refl, Option, none, some, List, [], ◌∷◌, string_eq, nat_eq,
}
use torque_finder.Prelude.{map}
use torque_finder.Text.{len, clip}
use torque_finder.Domain.Errors.{retrieval_error, Result, ok, raised}
use torque_finder.Retrieval.Embedder.{max_text_chars, embed, embed_query, embed_documents}
use torque_finder.Retrieval.Embedder.Batches.{embed_documents-map}

-- A client that embeds a text as its length.
abbrev lengths : List String → Result (List ℕ)
lengths batch = ok (map len batch)

embed_documents-map_example :
    embed_documents lengths ("pike" ∷ "sid" ∷ [])
    ≡ ok (map len (map (clip max_text_chars) ("pike" ∷ "sid" ∷ [])))
embed_documents-map_example =
    embed_documents-map lengths len (λ batch h. refl) ("pike" ∷ "sid" ∷ [])

-- A client that answers nothing.
abbrev short_answer : List String → Result (Option (List ℕ))
short_answer batch = ok (some [])

short_run :
    embed_query (embed none short_answer) "pike"
    ≡ raised (
        retrieval_error
          "Voyage embedding response was malformed (missing or short embeddings list)")
unfolding embed_query embed
short_run = refl
