-- ===== src/Text/Regex.antt =====
-- Matching with backtracking, as `re` does it: a pattern takes a text to the rests that its
-- matches at the start of the text leave, in the order in which they are tried.
use Prim.Native.Char.{Char, code}
use Prim.Native.String.{String, [], ◌∷◌}
use torque_finder.Prelude.{
  String, Bool, true, false, ◌||◌, List, [], ◌∷◌, ◌++◌, if◌then◌else◌, string_eq, nat_eq, nat_beq,
}

-- Which characters `\d` and `\s` stand for: tables of the Unicode database.
pub record CharTables : Type 0 where
  pub is_decimal : Char → Bool
  pub is_space : Char → Bool

abbrev pub Pattern : Type 0
Pattern = String → List String

abbrev pub after : List String → Pattern → List String
after [] q = []
after (rest ∷ rests) q = q rest ++ after rests q

infixl 60 ◌then_match◌
abbrev pub ◌then_match◌ : Pattern → Pattern → Pattern
◌then_match◌ p q text = after (p text) q

-- One character of a class.
abbrev pub class : (Char → Bool) → Pattern
class p [] = []
class p (c ∷ s) = if p c then s ∷ [] else []

-- `p?`
abbrev pub optional : Pattern → Pattern
optional p text = p text ++ (text ∷ [])

-- `[...]*` and `[...]+`, the longest match first.
unfoldable pub many : (Char → Bool) → Pattern
many p [] = [] ∷ []
many p (c ∷ s) = let longer = many p s ++ ((c ∷ s) ∷ []) in if p c then longer else (c ∷ s) ∷ []

unfoldable pub many1 : (Char → Bool) → Pattern
unfolding many
many1 p = class p then_match many p

abbrev pub is_match : List String → Bool
is_match [] = false
is_match (_ ∷ _) = true

-- `pattern.search(text) is not None`
unfoldable pub search_in : Pattern → String → Bool
search_in p [] = is_match (p [])
search_in p (c ∷ s) = is_match (p (c ∷ s)) || search_in p s

-- `_TORQUE_RE`: `\d+(?:\.\d+)?\s*N[·.\-]?\s?m`, ignoring case.
unfoldable pub torque_pattern : ⦃u : CharTables⦄ → Pattern
unfolding many many1
torque_pattern ⦃u⦄ =
    many1 u.is_decimal
    then_match optional (class (λ c. nat_beq (code c) b'.') then_match many1 u.is_decimal)
    then_match many u.is_space
    then_match class (λ c. nat_beq (code c) b'N' || nat_beq (code c) b'n')
    then_match optional
        (class (λ c. nat_beq (code c) 0xb7 || nat_beq (code c) b'.' || nat_beq (code c) b'-'))
    then_match optional (class u.is_space)
    then_match class (λ c. nat_beq (code c) b'M' || nat_beq (code c) b'm')
