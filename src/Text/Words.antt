-- ===== src/Text/Words.antt =====
-- The token pattern: what `findall` leaves out, and that no match is empty.
use Prim.Native.String
use Prim.Native.String.{String, [], ◌∷◌}
use mathlib.Core.List.{List, [], ◌∷◌}
use text.Mathlib.TextLemmas.{nil-append, cons-append, append_assoc}
use torque_finder.Prelude.{
  ℕ, zero, suc, ◌≤◌, ◌≡◌, ◌≢◌, refl, ◌∙◌, ap, inl, inr, arith, if◌then◌else◌, All, Bool-cases,
  eq_iff, ◌==◌, string_eq,
}
use torque_finder.Text.{len, clip, lower, is_word, scan, tokens, flush, push, Char}

-- The word characters of a text, in order.
abbrev pub word_chars : String → String
word_chars [] = []
word_chars (c ∷ s) = let rest = word_chars s in if is_word c then c ∷ rest else rest

abbrev pub concat : List String → String
concat [] = ""
concat (t ∷ ts) = String.◌++◌ t (concat ts)

concat-flush :
    (cur : String) (ts : List String) → concat (flush cur ts) ≡ String.◌++◌ cur (concat ts)
concat-flush cur ts = elim (Bool-cases (cur == "")) [
  | inl e ↦ rw (e, (eq_iff cur "").0 e, nil-append) refl
  | inr e ↦ rw e refl
]

append-push :
    (cur : String) (c : Char) (s : String) → String.◌++◌ (push cur c) s ≡ String.◌++◌ cur (c ∷ s)
append-push cur c s =
    append_assoc cur (c ∷ []) s
    ∙ ap (String.◌++◌ cur) (cons-append c [] s ∙ ap (String.◌∷◌ c) (nil-append s))

concat-scan : (cur s : String) → concat (scan cur s) ≡ String.◌++◌ cur (word_chars s)
unfolding scan
concat-scan cur [] = concat-flush cur []
concat-scan cur (c ∷ s) = elim (Bool-cases (is_word c)) [
  | inl e ↦ rw e (concat-scan (push cur c) s ∙ append-push cur c (word_chars s))
  | inr e ↦ rw e (
      concat-flush cur (scan "" s)
      ∙ ap (String.◌++◌ cur) (concat-scan "" s ∙ nil-append (word_chars s)))
]

-- The tokens of a text are, joined, the word characters of its lower case: none is lost and
-- none comes from elsewhere.
pub concat-tokens : (text : String) → concat (tokens text) ≡ word_chars (lower text)
unfolding tokens
concat-tokens text = concat-scan "" (lower text) ∙ nil-append (word_chars (lower text))

flush-nonempty :
    (cur : String) (ts : List String) → All (λ t. t ≢ "") ts → All (λ t. t ≢ "") (flush cur ts)
flush-nonempty cur ts h = elim (Bool-cases (cur == "")) [
  | inl e ↦ rw e h
  | inr e ↦ rw e ((λ q. ground (arith, eq_iff cur "")), h)
]

scan-nonempty : (cur s : String) → All (λ t. t ≢ "") (scan cur s)
unfolding scan
scan-nonempty cur [] = flush-nonempty cur [] tt
scan-nonempty cur (c ∷ s) = elim (Bool-cases (is_word c)) [
  | inl e ↦ rw e (scan-nonempty (push cur c) s)
  | inr e ↦ rw e (flush-nonempty cur (scan "" s) (scan-nonempty "" s))
]

-- No token is empty.
pub tokens-nonempty : (text : String) → All (λ t. t ≢ "") (tokens text)
unfolding tokens
tokens-nonempty text = scan-nonempty "" (lower text)

lower_pike : tokens "RS-1 PIKE (2012)" ≡ "rs" ∷ "1" ∷ "pike" ∷ "2012" ∷ []
unfolding tokens
lower_pike = refl

-- What is left of a clipped text has at most the given number of characters.
pub len-clip : (n : ℕ) (s : String) → len (clip n s) ≤ n
len-clip zero s = omega arith
len-clip (suc n) [] = omega arith
len-clip (suc n) (c ∷ s) = omega (arith, len-clip n s)
