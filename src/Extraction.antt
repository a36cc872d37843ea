-- ===== src/Extraction.antt =====
-- extraction/claude_client.py. The Anthropic SDK is a parameter: a call of `messages.create`
-- answers a message or raises.
pub mod Json
pub mod Client
pub mod Upstream
pub mod Gate
pub mod Parse
pub mod Extractor
