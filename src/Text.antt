-- ===== src/Text.antt =====
-- The operations of Python's `str` and `re` that src/parts_lookup/retrieval uses: `str.lower`,
-- `findall` of `[a-z0-9]+`, and `phrase in text`.
pub mod Words
pub mod Regex
pub mod Replace
use Prim.Native.Char.{Char, code}
use Prim.Native.String
use Prim.Native.String.{String, [], ◌∷◌}
use mathlib.Core.List.{List, [], ◌∷◌}
use text.Mathlib.Text.{starts_with}
use torque_finder.Prelude.{
  ltb, ℕ, zero, suc, ◌-◌, ◌/◌, ◌%◌, Bool, true, false, ◌&&◌, ◌||◌, leb, nat_beq, if◌then◌else◌,
  ◌==◌, string_eq,
}

-- The character at a position of a text, with a default past its end.
char_or : Char → String → ℕ → Char
char_or d [] i = d
char_or d (c ∷ s) zero = c
char_or d (c ∷ s) (suc i) = char_or d s i

-- `c.lower()` where its result has a character below U+0080: the letters, U+0130 (an `i` and a
-- combining dot) and U+212A (`k`). Any other character stays: its lower case is above U+007F
-- too, and neither the token pattern nor the phrases of the vocabulary see it.
lower_char : Char → String → String
unfolding char_or
lower_char c s =
    if leb b'A' (code c) && leb (code c) b'Z'
    then char_or c "abcdefghijklmnopqrstuvwxyz" (code c - b'A') ∷ s
    else if nat_beq (code c) 0x130
    then "i" ∷ "̇" ∷ s
    else if nat_beq (code c) 0x212a
    then "k" ∷ s
    else c ∷ s

-- `text.lower()`
unfoldable pub lower : String → String
unfolding lower_char
lower [] = []
lower (c ∷ s) = lower_char c (lower s)

-- The class `[a-z0-9]`.
abbrev pub is_word : Char → Bool
is_word c = leb b'a' (code c) && leb (code c) b'z' || leb b'0' (code c) && leb (code c) b'9'

abbrev pub push : String → Char → String
push s c = String.◌++◌ s (c ∷ [])

-- The current match, if it is not empty, goes before the matches of the rest.
abbrev pub flush : String → List String → List String
flush cur more = if cur == "" then more else cur ∷ more

-- `findall`: `cur` is the match that is being read.
unfoldable pub scan : String → String → List String
scan cur [] = flush cur []
scan cur (c ∷ s) =
    let longer = scan (push cur c) s in
    let closed = flush cur (scan "" s) in if is_word c then longer else closed

-- `re.compile(r"[a-z0-9]+").findall(text.lower())`
unfoldable pub tokens : String → List String
unfolding scan lower
tokens text = scan "" (lower text)

-- `phrase in text`
unfoldable pub contains : String → String → Bool
contains phrase [] = phrase == ""
contains phrase (c ∷ s) = starts_with (c ∷ s) phrase || contains phrase s

char_at : String → ℕ → String
char_at [] i = []
char_at (c ∷ s) zero = c ∷ []
char_at (c ∷ s) (suc i) = char_at s i

digit : ℕ → String → String
unfolding char_at
digit d s = String.◌++◌ (char_at "0123456789" d) s

-- `str(n)`: no number has more digits than its value and one.
show_upto : ℕ → ℕ → String → String
unfolding digit
show_upto zero n s = s
show_upto (suc fuel) n s =
    let more = show_upto fuel (n / 10) (digit (n % 10) s) in if leb n 9 then digit n s else more

unfoldable pub show : ℕ → String
unfolding show_upto
show n = show_upto (suc n) n ""

-- `len(s)`
abbrev pub len : String → ℕ
len [] = 0
len (c ∷ s) = suc (len s)

-- `s[:n]`
abbrev pub clip : ℕ → String → String
clip zero s = ""
clip (suc n) [] = ""
clip (suc n) (c ∷ s) = c ∷ clip n s

-- `separator.join(parts)`
abbrev pub join : String → List String → String
join separator [] = ""
join separator (part ∷ []) = part
join separator (part ∷ next ∷ parts) =
    String.◌++◌ part (String.◌++◌ separator (join separator (next ∷ parts)))

-- `s <= t`, by code points.
abbrev pub text_le : String → String → Bool
text_le [] t = true
text_le (c ∷ s) [] = false
text_le (c ∷ s) (d ∷ t) =
    let rest = text_le s t in ltb (code c) (code d) || nat_beq (code c) (code d) && rest
