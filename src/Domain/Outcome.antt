-- ===== src/Domain/Outcome.antt =====
-- How a property of a call follows from properties of the calls in it.
use torque_finder.Prelude.{
  if◌then◌else◌, String, ◌≡◌, refl, true, string_eq, nat_eq, Bool, false, Bool-cases, inl, subst,
  sym, inr, ap,
}
use torque_finder.Domain.Errors.{
  except_as, Exn, retrieval_error, is_retrieval_error, Result, ok, raised, ◌>>=◌, wrap,
}

-- What holds of the value, if the call returns one.
abbrev pub Returns : {A : Type 0} → (A → Type 0) → Result A → Type 0
Returns P (ok a) = P a
Returns P (raised _) = Unit

-- A call that raises nothing but a `RetrievalError`.
abbrev pub RaisesRetrieval : {A : Type 0} → Result A → Type 0
RaisesRetrieval (ok _) = Unit
RaisesRetrieval (raised e) = is_retrieval_error e ≡ true

module _ {A B : Type 0} where
  pub Returns->>= :
      (P : A → Type 0) (Q : B → Type 0) (m : Result A) (f : A → Result B)
      → Returns P m
      → ((a : A) → P a → Returns Q (f a))
      → Returns Q (m >>= f)
  Returns->>= P Q (ok a) f h k = k a h
  Returns->>= P Q (raised e) f h k = tt

  pub RaisesRetrieval->>= :
      (m : Result A) (f : A → Result B)
      → RaisesRetrieval m
      → ((a : A) → RaisesRetrieval (f a))
      → RaisesRetrieval (m >>= f)
  RaisesRetrieval->>= (ok a) f h k = k a
  RaisesRetrieval->>= (raised e) f h k = h

module _ {A : Type 0} where
  pub Returns-wrap : (P : A → Type 0) (e : Exn) (m : Result A) → Returns P m → Returns P (wrap e m)
  Returns-wrap P e (ok a) h = h
  Returns-wrap P e (raised _) h = tt

  pub Returns-any : (m : Result A) → Returns (λ a. Unit) m
  Returns-any (ok a) = tt
  Returns-any (raised _) = tt

  pub RaisesRetrieval-wrap :
      (what : String) (m : Result A) → RaisesRetrieval (wrap (retrieval_error what) m)
  RaisesRetrieval-wrap what (ok a) = tt
  RaisesRetrieval-wrap what (raised _) = refl

  pub Returns-of : (P : A → Type 0) (m : Result A) → ((a : A) → m ≡ ok a → P a) → Returns P m
  Returns-of P (ok a) h = h a refl
  Returns-of P (raised e) h = tt

  pub Returns-weaken :
      (P Q : A → Type 0) (m : Result A) → ((a : A) → P a → Q a) → Returns P m → Returns Q m
  Returns-weaken P Q (ok a) f h = f a h
  Returns-weaken P Q (raised e) f h = tt

  -- A guard in front of a call.
  pub Returns-guard :
      (P : A → Type 0) (b : Bool) (e : Exn) (m : Result A)
      → (b ≡ false → Returns P m)
      → Returns P (if b then raised e else m)
  Returns-guard P true e m h = tt
  Returns-guard P false e m h = h refl

  pub guard->>= :
      {B : Type 0} (b : Bool) (e : Exn) (m : Result A) (f : A → Result B)
      → ((if b then raised e else m) >>= f) ≡ (if b then raised e else (m >>= f))
  guard->>= true e m f = refl
  guard->>= false e m f = refl

  -- A guard that lets a call through.
  pub Returns-if :
      (P : A → Type 0) (b : Bool) (a : A) (e : Exn) → P a → Returns P (if b then ok a else raised e)
  Returns-if P true a e h = h
  Returns-if P false a e h = tt

-- What holds of the exception, if the call raises one.
abbrev pub Raises : {A : Type 0} → (Exn → Type 0) → Result A → Type 0
Raises P (ok _) = Unit
Raises P (raised e) = P e

module _ {A B : Type 0} (P : Exn → Type 0) where
  pub Raises->>= :
      (m : Result A) (f : A → Result B)
      → Raises P m
      → ((a : A) → m ≡ ok a → Raises P (f a))
      → Raises P (m >>= f)
  Raises->>= (ok a) f h k = k a refl
  Raises->>= (raised e) f h k = h

module _ {A : Type 0} where
  pub Returns-except_as :
      (P : A → Type 0) (p : Exn → Bool) (e : Exn) (m : Result A)
      → Returns P m
      → Returns P (except_as p e m)
  Returns-except_as P p e (ok a) h = h
  Returns-except_as P p e (raised _) h = tt

  -- What the `except` does not catch, goes on.
  pub Raises-except_as :
      (P Q : Exn → Type 0) (p : Exn → Bool) (new : Exn) (m : Result A)
      → Raises Q m
      → P new
      → ((e : Exn) → Q e → p e ≡ false → P e)
      → Raises P (except_as p new m)
  Raises-except_as P Q p new (ok a) h k t = tt
  Raises-except_as P Q p new (raised e) h k t = elim (Bool-cases (p e)) [
    | inl q ↦ subst P (sym (rw q refl)) k
    | inr q ↦ subst P (sym (rw q refl)) (t e h q)
  ]

abbrev value_or : {A : Type 0} → A → Result A → A
value_or d (ok a) = a
value_or d (raised _) = d

pub ok-injective : {A : Type 0} → (a b : A) → ok a ≡ ok b → a ≡ b
ok-injective a b e = ap (value_or a) e

pub raised-injective : {A : Type 0} → (d e : Exn) → ◌≡◌ {A = Result A} (raised d) (raised e) → d ≡ e
raised-injective d e q = cc

pub ok≢raised : {A : Type 0} {a : A} {e : Exn} → ok a ≡ raised e → ⊥
ok≢raised q = cc

-- What holds of the value, if the call returns one, and of the exception, if it raises one.
abbrev pub Ends : {A : Type 0} → (A → Type 0) → (Exn → Type 0) → Result A → Type 0
Ends P Q (ok a) = P a
Ends P Q (raised e) = Q e

pub Ends->>= :
    {A B : Type 0} (P : A → Type 0) (R : B → Type 0) (Q : Exn → Type 0) (m : Result A)
    (f : A → Result B)
    → Ends P Q m
    → ((a : A) → P a → Ends R Q (f a))
    → Ends R Q (m >>= f)
Ends->>= P R Q (ok a) f h k = k a h
Ends->>= P R Q (raised e) f h k = h

-- A chain of calls that returns: its first call does, and so does the rest.
pub >>=-ok :
    {A B : Type 0} (m : Result A) (f : A → Result B) (b : B)
    → (m >>= f) ≡ ok b
    → (a : A) × (m ≡ ok a) × (f a ≡ ok b)
>>=-ok (ok a) f b e = (a, refl, e)
>>=-ok (raised x) f b e = absurd (ok≢raised (sym e))

pub wrap-ok : {A : Type 0} (new : Exn) (m : Result A) (a : A) → wrap new m ≡ ok a → m ≡ ok a
wrap-ok new (ok x) a e = e
wrap-ok new (raised x) a e = absurd (ok≢raised (sym e))

pub except_as-ok :
    {A : Type 0} (p : Exn → Bool) (new : Exn) (m : Result A) (a : A)
    → except_as p new m ≡ ok a
    → m ≡ ok a
except_as-ok p new (ok x) a e = e
except_as-ok p new (raised x) a e = absurd (ok≢raised (sym e))

-- A guard of a call that returns let it through.
pub guard-ok :
    {A : Type 0} (b : Bool) (e : Exn) (m : Result A) (a : A)
    → (if b then raised e else m) ≡ ok a
    → (b ≡ false) × (m ≡ ok a)
guard-ok true e m a q = absurd (ok≢raised (sym q))
guard-ok false e m a q = (refl, q)
