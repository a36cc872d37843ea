-- ===== src/Ingestion/HtmlPipeline.antt =====
-- ingestion/html_pipeline.py. What an ingestion writes to are the store and the table of
-- publications, in one transaction.
pub mod Inserted
pub mod ModuleText
pub mod Stored
pub mod Insertion
pub mod Succeeds
use torque_finder.Prelude.{
  ℕ, zero, suc, ◌+◌, ◌-◌, ◌*◌, ◌≤◌, ◌<◌, String, ◌≡◌, ◌≢◌, refl, sym, ap, ◌∙◌, subst, ◌↔◌, ◌⊎◌, inl,
  inr, Bool, true, false, not, ◌&&◌, ◌||◌, Option, none, some, List, [], ◌∷◌, ◌++◌, arith, eq_iff,
  if◌then◌else◌, Bool-cases, Option-cases, length, take, any, all, keep, first, In, Before, All,
  is_some, is_none, leb, ltb, ◌==◌, string_eq, nat_eq,
}
use torque_finder.Prelude.{map}
use torque_finder.Floats.{Floats}
use torque_finder.Text.Regex.{CharTables}
use torque_finder.Domain.Errors.{
  Exn, ingestion_error, is_discovery_error, builtin, value_error, Result, ok, raised, ◌>>=◌, wrap,
  except_as,
}
use torque_finder.Domain.Chunk.{html}
use torque_finder.Domain.Documents.{IndexedDocument, HtmlChunk, ParsedPublication}
use torque_finder.Domain.Publications.{RegisteredPublication, ingested}
use torque_finder.ProductMatch.Sets.{HashOrder}
use torque_finder.Retrieval.Embedder.{embed_documents}
use torque_finder.Extraction.Json.{Python}
use torque_finder.Indexing.Store.{Postgres, Store}
use torque_finder.Indexing.Repository.{upsert_document, delete_chunks, insert_chunk}
use torque_finder.Discovery.Registry.{Publications, set_status}
use torque_finder.Ingestion.ManualData.{Entities}
use torque_finder.Ingestion.HtmlParser.Publication.{parse_publication}

abbrev pub fetch_failed : Exn
fetch_failed = ingestion_error "fetch failed for publication"

abbrev pub no_chunks : Exn
no_chunks = ingestion_error "no chunks parsed from publication"

abbrev pub embedding_failed : Exn
embedding_failed = ingestion_error "embedding failed for publication"

abbrev pub wrong_count : Exn
wrong_count = ingestion_error "embedder returned another number of vectors"

abbrev pub flip_failed : Exn
flip_failed = ingestion_error "status flip failed for publication"

-- `a or b`, for texts.
abbrev pub text_or : String → String → String
text_or a b = if a == "" then b else a

module _ ⦃fl : Floats⦄ where
  open fl use {Float}

  -- The collaborators: `Fetcher.get`, and `VoyageEmbedder._embed`, which sends one batch.
  pub record Collaborators : Type 0 where
    pub fetch : String → Result String
    pub send : List String → Result (List (List Float))

  -- What the transaction sees.
  pub record World : Type 0 where
    pub store : Store
    pub publications : Publications

  module _ ⦃db : Postgres⦄ where
    -- The loop over `zip(parsed.chunks, embeddings, strict=True)`.
    unfoldable pub insert_chunks : ℕ → List HtmlChunk → List (List Float) → Store → Result Store
    insert_chunks document_id [] [] s = ok s
    insert_chunks document_id [] (e ∷ es) s = raised (builtin value_error)
    insert_chunks document_id (c ∷ cs) [] s = raised (builtin value_error)
    insert_chunks document_id (c ∷ cs) (e ∷ es) s =
        insert_chunk document_id c.ordinal c.text e c.source_url none c.anchor c.parent_anchor s
        >>= λ p. insert_chunks document_id cs es p.0

    -- The chunks of the document are replaced.
    unfoldable pub replace_chunks : ℕ → List HtmlChunk → List (List Float) → Store → Result Store
    replace_chunks document_id cs es s =
        insert_chunks document_id cs es (delete_chunks document_id s).0

    module _ ⦃h : HashOrder⦄ ⦃u : CharTables⦄ ⦃py : Python⦄ ⦃en : Entities⦄ (by : Collaborators)
        (now : ℕ) (publication : RegisteredPublication) where
      -- From the embeddings on.
      unfoldable pub store_publication :
          ParsedPublication → List (List Float) → World → Result (World × IndexedDocument)
      store_publication parsed embeddings w = do
        upserted ←
            upsert_document now html (text_or parsed.title publication.title) publication.source_url
              publication.pub_id w.store
        replaced ← replace_chunks (upserted.1).id parsed.chunks embeddings upserted.0
        publications ←
            except_as is_discovery_error flip_failed
              (set_status publication.pub_id ingested w.publications)
        ok (record { store = replaced; publications = publications }, upserted.1)

      -- The embeddings of the chunks, one for each.
      unfoldable pub embed_chunks : ParsedPublication → Result (List (List Float))
      embed_chunks parsed = do
        embeddings ←
            wrap embedding_failed (embed_documents by.send (map (λ c. c.text) parsed.chunks))
        if length embeddings == length parsed.chunks then ok embeddings else raised wrong_count

      -- `if not parsed.chunks`
      abbrev pub some_chunks : ParsedPublication → Result ParsedPublication
      some_chunks parsed = if length parsed.chunks == 0 then raised no_chunks else ok parsed

      -- `ingest_publication`
      unfoldable pub ingest_publication : World → Result (World × IndexedDocument)
      ingest_publication w = do
        page ← wrap fetch_failed (by.fetch publication.source_url)
        parsed ← parse_publication publication.source_url page >>= some_chunks
        embeddings ← embed_chunks parsed
        store_publication parsed embeddings w
