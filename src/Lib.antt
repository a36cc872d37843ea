-- ===== src/Lib.antt =====
-- A verification library for the answer path of the torque finder (src/parts_lookup): a question
-- of a mechanic goes through hybrid retrieval over the indexed manuals, an out-of-corpus gate, an
-- extraction call to Claude, and a response that cites the page it came from.
--
-- The parts, and the file or folder that models each:
--   * Domain: domain/models.py and domain/errors.py. `Result` is a Python call that returns or
--     raises; `Domain/Outcome` reasons about both.
--   * ProductMatch: retrieval/product_match.py, which derives the product scope of titles and
--     questions (`normalize_product`, `extract_query_scope`) and compares scopes
--     (`scope_matches`).
--   * Retrieval: retrieval/hybrid.py, keyword.py and vector.py. `Fusion`, `Rerank`, `Documents`
--     and `Assemble` are its helper functions, `Hybrid` is `hybrid_search`, stage by stage.
--     `Embedder` is retrieval/embedder.py, the batches sent to the embedding service.
--   * Extraction: extraction/claude_client.py. `Gate` is `_is_out_of_corpus`, `Parse` is
--     `_parse_response`, `Upstream` is `_classify_upstream_error`, and `Extractor` is the state
--     (`_stub`, `_last_upstream_ok`) with `extract`.
--   * Api: api/routes/query.py. `Services` is what the route calls, and `Route.query` takes the
--     result of the retrieval and the state of the extractor to the new state and the response,
--     the HTTP error or the escaped exception.
--     `Health.readyz` is the readiness probe of api/routes/health.py.
--   * Indexing: indexing/repository.py. `Table` is what SQLAlchemy's queries make of rows, `Store`
--     the two tables with their constraints, `Repository` the methods, and `Mining`
--     `scan_chunks_matching`. A method takes the store to the store that it leaves; the caller
--     rolls back what raises.
--   * Discovery: `Registry` is discovery/registry.py, the table of publications with its methods,
--     and `Registry/Catalog` the map that it promises to be; `ModelPage` is discovery/model_page.py,
--     `Probe` is `build_publication` of discovery/publication_probe.py, and `Crawler` is
--     `discover_seed` of discovery/crawler.py, which joins them.
--   * Ingestion: `ManualData` is `extract_manual_data_json` of discovery/publication_probe.py,
--     `HtmlParser` is ingestion/html_parser.py, and `HtmlPipeline` is ingestion/html_pipeline.py,
--     which joins the parser, the embedder, the store and the registry. `PdfPipeline` is
--     ingestion/pipeline.py, over the same store and the bucket.
--   * Text, Floats, Prelude: the Python operations and the lemmas that the parts share.
--   * Tests: the theorems at concrete inputs.
--
-- Conventions. A `dict` is an association list in insertion order (`Prelude/Maps`); `sorted` is a
-- stable sort (`Prelude/Sort`). Floats are an interface, `Floats`, whose laws hold of finite IEEE
-- doubles: the order is total, rounding is monotone, zero is neutral. `Floats/Fixed` meets the
-- laws and runs the tests. The confidence of a product scope is held in hundredths. Every loop is
-- structural recursion on a list or a text; only `show` of a number counts on fuel, its value and
-- one, which no number of digits exceeds.
--
-- Parameters: what the database and the embedding client answer (`Backend`), the object store and
-- the module-text query (`Services`), the Anthropic SDK (`Reply`, `ApiError`), `json.loads` and
-- the conversions of texts and numbers (`Python`), the iteration order of a set (`HashOrder`), the
-- Unicode tables behind `\d` and `\s` (`CharTables`), the table of HTML entities (`Entities`), the
-- ids of Postgres, the texts that its columns take, and its tests on texts (`Postgres`, whose one
-- law is that the id of a new row is not in use), the fetcher with one request to the embedding
-- service (`Collaborators`), `sha256` (`Hashing`), and the file, the parser, the renderer and the
-- bucket of a PDF (`Tools`).
--
-- Not modelled: logging, the semaphore of the extractor, HTTP error details, the command lines,
-- the settings, the loss of a connection, concurrent transactions, the fetcher with its cache, and
-- the sitemaps. The refusal of a text by Postgres is modelled where a document or a chunk is
-- written, not where a text is only compared, and not in the table of publications. The numbers of
-- an embedding lie in the range of the vector column, as those of the embedding service do.
pub mod Prelude
pub mod Floats
pub mod Text
pub mod Domain
pub mod ProductMatch
pub mod Retrieval
pub mod Extraction
pub mod Api
pub mod Indexing
pub mod Discovery
pub mod Ingestion
pub mod Tests
