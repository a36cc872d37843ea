-- ===== src/Domain/Errors.antt =====
-- domain/errors.py: the exceptions of the contexts, and how Python's calls return or raise.
use torque_finder.Prelude.{if◌then◌else◌, ℕ, String, Bool, true, false, Option, string_eq, nat_eq}

-- The built-in exceptions that the program catches or lets escape. A `JSONDecodeError` is a
-- `ValueError`.
pub data PyError : Type 0 where
  json_decode_error key_error type_error value_error overflow_error index_error attribute_error :
      PyError

-- One constructor for each class that the program raises, and one for all that it does not
-- define. The two upstream classes are subclasses of `ExtractionError`.
pub data Exn : Type 0 where
  ingestion_error retrieval_error discovery_error extraction_error : String → Exn
  upstream_unavailable : (status_code : Option ℕ) (request_id retry_after : Option String) → Exn
  upstream_unauthorized : (status_code : Option ℕ) (request_id : Option String) → Exn
  builtin : PyError → Exn
  other_error : String → Exn

-- `isinstance(exc, RetrievalError)`
abbrev pub is_retrieval_error : Exn → Bool
is_retrieval_error (retrieval_error _) = true
is_retrieval_error _ = false

-- `isinstance(exc, IngestionError)`
abbrev pub is_ingestion_error : Exn → Bool
is_ingestion_error (ingestion_error _) = true
is_ingestion_error _ = false

-- `isinstance(exc, DiscoveryError)`
abbrev pub is_discovery_error : Exn → Bool
is_discovery_error (discovery_error _) = true
is_discovery_error _ = false

-- `isinstance(exc, ExtractionError)`: the class and its two subclasses.
abbrev pub is_extraction_error : Exn → Bool
is_extraction_error (extraction_error _) = true
is_extraction_error (upstream_unavailable _ _ _) = true
is_extraction_error (upstream_unauthorized _ _) = true
is_extraction_error _ = false

pub data Result {ℓ} (A : Type ℓ) : Type ℓ where
  ok : A → Result A
  raised : Exn → Result A

infixl 5 ◌>>=◌
abbrev pub ◌>>=◌ {ℓ κ} : {A : Type ℓ} {B : Type κ} → Result A → (A → Result B) → Result B
ok a >>= f = f a
raised e >>= f = raised e

-- `try: m; except Exception as exc: raise new from exc`
abbrev pub wrap {ℓ} : {A : Type ℓ} → Exn → Result A → Result A
wrap new (ok a) = ok a
wrap new (raised _) = raised new

-- `try: m; except ... as exc: raise new from exc`
abbrev pub except_as {ℓ} : {A : Type ℓ} → (Exn → Bool) → Exn → Result A → Result A
except_as p new (ok a) = ok a
except_as p new (raised e) = raised (if p e then new else e)
