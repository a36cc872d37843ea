-- ===== src/ProductMatch/Sets.antt =====
-- Python's sets of strings. The order in which a set is iterated depends on the hashes, which
-- Python seeds anew in each process: it is a parameter, `HashOrder`, of the code that iterates.
use torque_finder.Prelude.{
  String, ◌↔◌, Bool, not, List, [], ◌∷◌, In, Distinct, any, keep, ◌==◌, ◌≡◌, true, arith, eq_iff,
  string_eq, inl, In-keep, if◌then◌else◌, Bool-cases, subst, inr, sym,
}

-- `t in s`
abbrev pub member : String → List String → Bool
member t s = any (λ x. x == t) s

-- `s - t`
abbrev pub difference : List String → List String → List String
difference s t = keep (λ x. not (member x t)) s

-- `bool(s & t)`
abbrev pub meets : List String → List String → Bool
meets s t = any (λ x. member x t) s

-- The order in which `set(l)` is iterated: each element of `l`, once.
pub record HashOrder : Type 0 where
  pub arrange : List String → List String
  pub arrange-In : (l : List String) (t : String) → In t (arrange l) ↔ In t l
  pub arrange-Distinct : (l : List String) → Distinct (arrange l)

pub member_iff : (t : String) (s : List String) → (member t s ≡ true) ↔ In t s
member_iff t [] = (λ h. cc, λ h. absurd h)
member_iff t (x ∷ s) = (
  λ h. ground (arith, eq_iff x t, member_iff t s),
  λ h. ground (arith, eq_iff x t, member_iff t s),
)

abbrev pub dedup : List String → List String
dedup [] = []
dedup (x ∷ s) = x ∷ keep (λ y. not (y == x)) (dedup s)

In_keep : (p : String → Bool) (t : String) (s : List String) → In t s → p t ≡ true → In t (keep p s)
In_keep p t [] h e = absurd h
In_keep p t (x ∷ s) (inl q) e = rw (subst (λ y. p y ≡ true) (sym q) e) (inl q)
In_keep p t (x ∷ s) (inr m) e = ground (arith, In_keep p t s)

keep-Distinct : (p : String → Bool) (s : List String) → Distinct s → Distinct (keep p s)
keep-Distinct p [] h = tt
keep-Distinct p (x ∷ s) h = ground (arith, keep-Distinct p s, In-keep p x s)

dedup-In : (s : List String) (t : String) → In t (dedup s) ↔ In t s
dedup-In [] t = (λ h. h, λ h. h)
dedup-In (x ∷ s) t = (
  λ h. ground (arith, In-keep (λ y. not (y == x)) t (dedup s), dedup-In s t),
  λ h. ground (arith, In_keep (λ y. not (y == x)) t (dedup s), dedup-In s t, eq_iff t x),
)

dedup-Distinct : (s : List String) → Distinct (dedup s)
dedup-Distinct [] = tt
dedup-Distinct (x ∷ s) = (
  λ m. ground (arith, In-keep (λ y. not (y == x)) x (dedup s), eq_iff x x),
  keep-Distinct (λ y. not (y == x)) (dedup s) (dedup-Distinct s),
)

abbrev pub arrange_front : String → List String → List String
arrange_front b l = if member b l then b ∷ keep (λ y. not (y == b)) (dedup l) else dedup l

pub arrange_front-In :
    (b : String) (l : List String) (t : String) → In t (arrange_front b l) ↔ In t l
arrange_front-In b l t = (
  λ h. ground (arith, In-keep (λ y. not (y == b)) t (dedup l), dedup-In l t, member_iff b l),
  λ h. ground (arith, In_keep (λ y. not (y == b)) t (dedup l), dedup-In l t, eq_iff t b),
)

pub arrange_front-Distinct : (b : String) (l : List String) → Distinct (arrange_front b l)
arrange_front-Distinct b l = elim (Bool-cases (member b l)) [
  | inl e ↦ rw e (
    λ m. ground (arith, In-keep (λ y. not (y == b)) b (dedup l), eq_iff b b),
    keep-Distinct (λ y. not (y == b)) (dedup l) (dedup-Distinct l),
  )
  | inr e ↦ rw e (dedup-Distinct l)
]

-- An order that starts with a given element, where the set has it.
abbrev pub front_first : String → HashOrder
front_first b = record {
  arrange = arrange_front b;
  arrange-In = arrange_front-In b;
  arrange-Distinct = arrange_front-Distinct b;
}
