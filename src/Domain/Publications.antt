-- ===== src/Domain/Publications.antt =====
-- `PublicationRef`, `DiscoveredPublication` and `RegisteredPublication` of domain/models.py.
use torque_finder.Prelude.{ℕ, String, List}

pub record PublicationRef : Type 0 where
  pub pub_id : String
  pub pub_type : String
  pub source_url : String

pub record DiscoveredPublication : Type 0 where
  pub pub_id : String
  pub pub_type : String
  pub title : String
  pub locale : String
  pub source_url : String
  pub series : List String
  pub models : List String
  pub procedures : List String
  pub content_hash : String

-- The statuses that the program writes.
pub data Status : Type 0 where
  discovered stale ingested : Status

pub record RegisteredPublication : Type 0 where
  pub pub_id : String
  pub pub_type : String
  pub title : String
  pub locale : String
  pub source_url : String
  pub series : List String
  pub models : List String
  pub procedures : List String
  pub referenced_by_models : List String
  pub content_hash : String
  pub status : Status
  pub discovered_at : ℕ
  pub last_seen_at : ℕ
