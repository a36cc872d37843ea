-- ===== src/Domain/Scope.antt =====
-- `ProductScope` of domain/models.py. The confidence is held in hundredths: the program only
-- compares the literals 0.0, 0.6, 0.7 and 0.9.
use torque_finder.Prelude.{ℕ, String, Bool, ◌||◌, Option, none, is_some}

pub record ProductScope : Type 0 where
  pub family : Option String
  pub brand : Option String
  pub confidence : ℕ

-- `ProductScope()`
abbrev pub unidentified : ProductScope
unidentified = record { family = none; brand = none; confidence = 0 }

unfoldable pub is_identified : ProductScope → Bool
is_identified scope = is_some scope.family || is_some scope.brand
