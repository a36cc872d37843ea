-- ===== src/Api/Route/Cited.antt =====
-- The response to an answer that cites a source.
use mathlib.Core.Option.{some-injective}
use torque_finder.Domain.Outcome.{ok-injective}
use torque_finder.Prelude.{
  ℕ, zero, suc, ◌+◌, ◌-◌, String, ◌≡◌, refl, sym, ap, ◌∙◌, subst, inl, inr, Bool, true, false,
  Option, none, some, List, [], ◌∷◌, arith, Option-cases, In, All, is_some, string_eq, nat_eq,
}
use torque_finder.Prelude.{map}
use torque_finder.Floats.{Floats}
use torque_finder.Text.Regex.{CharTables}
use torque_finder.Domain.Errors.{Result, ok, raised, ◌>>=◌}
use torque_finder.Domain.Chunk.{SourceType, pdf, html, RetrievedChunk}
use torque_finder.Domain.Answer.{Answer}
use torque_finder.Extraction.Client.{ExtractionCandidate}
use torque_finder.Api.Route.{
  pdf_candidate, candidate_of, candidates_from, response_candidates, chosen_links, cited_response,
  get_elem?,
}
use torque_finder.Api.Services.{
  Served, served, http_error, escaped, ◌then_serve◌, Services, source_links, Candidate,
  AnswerResponse, item_at,
}

module _ {A B : Type 0} where
  pub bind_ok :
      (m : Result A) (f : A → Result B) (b : B)
      → m >>= f ≡ ok b
      → (a : A) × ((m ≡ ok a) × (f a ≡ ok b))
  bind_ok (ok a) f b e = (a, (refl, e))
  bind_ok (raised x) f b e = cc

  pub bind_served :
      (m : Served A) (f : A → Served B) (b : B)
      → m then_serve f ≡ served b
      → (a : A) × ((m ≡ served a) × (f a ≡ served b))
  bind_served (served a) f b e = (a, (refl, e))
  bind_served (http_error s r) f b e = cc
  bind_served (escaped x) f b e = cc

abbrev served_or : {A : Type 0} → A → Served A → A
served_or d (served a) = a
served_or d (http_error _ _) = d
served_or d (escaped _) = d

pub served-injective : {A : Type 0} → (a b : A) → served a ≡ served b → a ≡ b
served-injective a b e = ap (served_or a) e

-- A PDF hit has the key of its page image.
abbrev pub keyed : SourceType → Option String → Bool
keyed html key = true
keyed pdf key = is_some key

pub item_at-ok :
    {A : Type 0} → (xs : List A) (i : ℕ) (x : A) → item_at xs i ≡ ok x → get_elem? xs i ≡ some x
item_at-ok xs i x e = elim (Option-cases (get_elem? xs i)) [
  | inl z ↦ ground arith
  | inr (y, z) ↦ ground arith
]

module _ ⦃fl : Floats⦄ where
  open fl use {Float}

  -- What the response to a question says of its source: none if it abstains, else the type and
  -- the links of one of its candidates.
  pub record CitesCandidate (r : AnswerResponse) : Type 0 where
    pub chosen : Candidate
    pub listed : In chosen r.candidates
    pub answered : r.abstained ≡ false
    pub type_shown : r.source_type ≡ some chosen.source_type
    pub url_shown : r.source_url ≡ some chosen.source_url
    pub screenshot_shown : r.screenshot_url ≡ chosen.screenshot_url

  abbrev pub HasNoSource : AnswerResponse → Type 0
  HasNoSource r =
      (r.abstained ≡ true)
      × ((r.source_type ≡ none) × ((r.source_url ≡ none) × (r.screenshot_url ≡ none)))

  pub get_elem_In :
      (xs : List Candidate) (i : ℕ) (x : Candidate) → get_elem? xs i ≡ some x → In x xs
  get_elem_In [] i x e = cc
  get_elem_In (y ∷ xs) zero x e = inl (some-injective _ _ e)
  get_elem_In (y ∷ xs) (suc i) x e = inr (get_elem_In xs i x e)

  module _ ⦃u : CharTables⦄ (r2 : Services) where
    candidate_of-keyed :
        (i : ℕ) (hit : RetrievedChunk) (s : SourceType) (c : ExtractionCandidate)
        → candidate_of r2 i hit s ≡ served c
        → keyed s hit.png_r2_key ≡ true
    candidate_of-keyed i hit html c e = refl
    candidate_of-keyed i hit pdf c e = page hit.png_r2_key e
      where
        page : (key : Option String) → pdf_candidate r2 i hit key ≡ served c → is_some key ≡ true
        page none e = cc
        page (some k) e = refl

    pub candidates_from-keyed :
        (i : ℕ) (hits : List RetrievedChunk) (cs : List ExtractionCandidate)
        → candidates_from r2 i hits ≡ served cs
        → All (λ hit. keyed hit.source_type hit.png_r2_key ≡ true) hits
    candidates_from-keyed i [] cs e = tt
    candidates_from-keyed i (hit ∷ hits) cs e =
        let first_one = bind_served (candidate_of r2 i hit hit.source_type) _ cs e in
        let others = bind_served (candidates_from r2 (i + 1) hits) _ cs first_one.1.1 in
        (
          candidate_of-keyed i hit hit.source_type first_one.0 first_one.1.0,
          candidates_from-keyed (i + 1) hits others.0 others.1.0,
        )

    pub response_candidates-types :
        (hits : List RetrievedChunk) (cs : List ExtractionCandidate) (out : List Candidate)
        → response_candidates r2 hits cs ≡ ok out
        → map (λ c. c.source_type) out ≡ map (λ hit. hit.source_type) hits
    response_candidates-types [] [] out e = ground arith
    response_candidates-types [] (_ ∷ _) out e = cc
    response_candidates-types (_ ∷ _) [] out e = cc
    response_candidates-types (hit ∷ hits) (c ∷ cs) out e =
        let linked = bind_ok (source_links r2 hit hit.source_type) _ out e in
        let others = bind_ok (response_candidates r2 hits cs) _ out linked.1.1 in
        subst
          (λ (o : List Candidate).
            map (λ c. c.source_type) o ≡ map (λ hit. hit.source_type) (hit ∷ hits))
          (ok-injective _ _ others.1.1)
          (ap (◌∷◌ hit.source_type) (response_candidates-types hits cs others.0 others.1.0))

    -- The hit at a position of the retrieved list is of the type of the candidate there, and a
    -- PDF hit has a key.
    matched :
        (hits : List RetrievedChunk) (out : List Candidate) (i : ℕ) (hit : RetrievedChunk)
        (c : Candidate)
        → map (λ (c : Candidate). c.source_type) out
          ≡ map (λ (hit : RetrievedChunk). hit.source_type) hits
        → All (λ (hit : RetrievedChunk). keyed hit.source_type hit.png_r2_key ≡ true) hits
        → get_elem? hits i ≡ some hit
        → get_elem? out i ≡ some c
        → (c.source_type ≡ hit.source_type) × (keyed hit.source_type hit.png_r2_key ≡ true)
    matched [] out i hit c t k a b = cc
    matched (h ∷ hits) [] i hit c t k a b = cc
    matched (h ∷ hits) (o ∷ out) zero hit c t k a b = ground arith
    matched (h ∷ hits) (o ∷ out) (suc i) hit c t k a b =
        matched hits out i hit c (ap (λ l. elim l [ [] ↦ [] | x ∷ xs ↦ xs ]) t) k.1 a b

    chosen_links-keyed :
        (hit : RetrievedChunk) (c : Candidate) (s : SourceType) (key : Option String)
        → keyed s key ≡ true
        → chosen_links r2 hit c s key ≡ ok (c.source_url, c.screenshot_url)
    chosen_links-keyed hit c html key k = refl
    chosen_links-keyed hit c pdf (some x) k = refl
    chosen_links-keyed hit c pdf none k = cc

    pub cited_response-Cites :
        (hits : List RetrievedChunk) (a : Answer) (out : List Candidate) (i : ℕ)
        (r : AnswerResponse)
        → map (λ (c : Candidate). c.source_type) out
          ≡ map (λ (hit : RetrievedChunk). hit.source_type) hits
        → All (λ (hit : RetrievedChunk). keyed hit.source_type hit.png_r2_key ≡ true) hits
        → cited_response r2 hits a out i ≡ ok r
        → CitesCandidate r
    cited_response-Cites hits a out i r t k e =
        let (hit, (at_hit, e1)) = bind_ok (item_at hits (i - 1)) _ r e in
        let (c, (at_c, e2)) = bind_ok (item_at out (i - 1)) _ r e1 in
        let same =
          matched hits out (i - 1) hit c t k (item_at-ok hits (i - 1) hit at_hit)
            (item_at-ok out (i - 1) c at_c) in
        let (links, (at_links, e3)) =
          bind_ok (chosen_links r2 hit c hit.source_type hit.png_r2_key) _ r e2 in
        let l : (c.source_url, c.screenshot_url) ≡ links =
          ok-injective _ _
            (sym (chosen_links-keyed hit c hit.source_type hit.png_r2_key same.1) ∙ at_links) in
        subst CitesCandidate (ok-injective _ _ e3) record {
          chosen = c;
          listed = get_elem_In out (i - 1) c (item_at-ok out (i - 1) c at_c);
          answered = refl;
          type_shown = ap some (sym same.0);
          url_shown = ap (λ (p : String × Option String). some p.0) (sym l);
          screenshot_shown = ap (λ (p : String × Option String). p.1) (sym l);
        }
