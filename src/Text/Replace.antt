-- ===== src/Text/Replace.antt =====
-- `Pattern.sub`, and the patterns that ignore case.
use Prim.Native.Char.{Char, code}
use Prim.Native.String
use Prim.Native.String.{String, [], ◌∷◌}
use mathlib.Core.List.{List, [], ◌∷◌}
use torque_finder.Prelude.{
  ℕ, zero, suc, ◌+◌, ◌-◌, String, Bool, ◌&&◌, ◌||◌, Option, none, some, List, [], ◌∷◌,
  if◌then◌else◌, leb, string_eq, nat_eq,
}
use torque_finder.Prelude.{nat_beq}
use mathlib.Core.Option.{map as opt_map}
use torque_finder.Text.{len}
use torque_finder.Text.Regex.{Pattern, is_match}

-- How many characters behind the first one the first match takes, if there is a match.
abbrev pub match_length : String → List String → Option ℕ
match_length s [] = none
match_length s (rest ∷ _) = some (len s - len rest)

-- `pattern.sub(replacement, text)`, for a pattern without empty matches: `skip` characters of
-- the last match are still to leave out.
unfoldable pub sub_from : Pattern → String → ℕ → String → String
sub_from p replacement skip [] = []
sub_from p replacement (suc skip) (c ∷ s) = sub_from p replacement skip s
sub_from p replacement zero (c ∷ s) = elim (match_length s (p (c ∷ s))) [
  | none ↦ c ∷ sub_from p replacement 0 s
  | some n ↦ String.◌++◌ replacement (sub_from p replacement n s)
]

abbrev pub sub : Pattern → String → String → String
sub p replacement text = sub_from p replacement 0 text

-- A letter of a pattern with `re.IGNORECASE`: the pattern's own lower case letters, and the
-- characters outside ASCII that `re` takes for `i`, `k` and `s`.
abbrev pub ignoring_case : Char → Char → Bool
ignoring_case p c =
    nat_beq (code c) (code p)
    || leb b'a' (code p) && leb (code p) b'z' && nat_beq (code c + 32) (code p)
    || nat_beq (code p) b'i' && (nat_beq (code c) 0x130 || nat_beq (code c) 0x131)
    || nat_beq (code p) b'k' && nat_beq (code c) 0x212a
    || nat_beq (code p) b's' && nat_beq (code c) 0x17f

-- The characters of a text, one after the other.
unfoldable pub literal : String → Pattern
literal [] text = text ∷ []
literal (p ∷ ps) [] = []
literal (p ∷ ps) (c ∷ s) = let rest = literal ps s in if ignoring_case p c then rest else []

-- `(.*?)` in front of a pattern, with `re.DOTALL`: the shortest text before a match.
unfoldable pub shortest_before : Pattern → String → Option String
shortest_before p [] = if is_match (p []) then some [] else none
shortest_before p (c ∷ s) =
    let longer = shortest_before p s in
    if is_match (p (c ∷ s)) then some [] else opt_map (λ t. c ∷ t) longer

-- The first of the rests that has a value.
abbrev pub first_some : (String → Option String) → List String → Option String
first_some f [] = none
first_some f (s ∷ ss) = elim (f s) [ none ↦ first_some f ss | some t ↦ some t ]

-- `search`, with the group of the first match.
unfoldable pub search_group : Pattern → (String → Option String) → String → Option String
search_group p group [] = first_some group (p [])
search_group p group (c ∷ s) =
    let later = search_group p group s in
    elim (first_some group (p (c ∷ s))) [ none ↦ later | some t ↦ some t ]
