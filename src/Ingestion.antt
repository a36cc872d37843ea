-- ===== src/Ingestion.antt =====
-- src/parts_lookup/ingestion: the parser of HTML publications and the pipelines.
pub mod ManualData
pub mod HtmlParser
pub mod HtmlPipeline
pub mod PdfPipeline
