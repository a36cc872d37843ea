-- ===== src/Ingestion/HtmlParser/Publication/Numbered.antt =====
-- The chunks of a parsed publication, and how the parser fails.
use torque_finder.Text.Replace.{search_group, shortest_before, literal}
use torque_finder.Prelude.{
  length-append, ℕ, zero, suc, String, ◌≡◌, ◌≢◌, refl, sym, ap, ◌∙◌, ◌⊎◌, inl, inr, true, Option,
  none, some, List, [], ◌∷◌, ◌++◌, arith, eq_iff, Bool-cases, length, All, ltb, ◌==◌, string_eq,
  nat_eq, ◌+◌,
}
use torque_finder.Prelude.{map}
use mathlib.Core.List.{map-append}
use torque_finder.Floats.{Floats}
use torque_finder.Text.Regex.{CharTables}
use torque_finder.Domain.Errors.{
  Exn, is_ingestion_error, builtin, type_error, attribute_error, Result, ok, raised, except_as,
  is_discovery_error,
}
use torque_finder.Domain.Outcome.{Ends, Ends->>=}
use torque_finder.Domain.Documents.{HtmlChunk, ParsedPublication}
use torque_finder.Extraction.Json.{
  lookup, Json, Python, object, payload_get, bool, array, null, int, str, number, no_items,
}
use torque_finder.Extraction.Parse.{strip, is_decode_error}
use torque_finder.Ingestion.ManualData.{
  extract_manual_data_json, extracted, Entities, manual_data_open,
}
use torque_finder.Ingestion.HtmlParser.{iterate, deep_link, or_else, or_json, get_field, subst}
use torque_finder.Ingestion.HtmlParser.Publication.{
  Parsed, append, parse_child, parse_children, parse_module, parse_modules, parse_data,
  parse_publication, not_json, no_block,
}

-- As many numbers as given, one after the other.
abbrev pub count_up : ℕ → ℕ → List ℕ
count_up n zero = []
count_up n (suc k) = n ∷ count_up (suc n) k

count_up_last : (n k : ℕ) → count_up n k ++ ((n + k) ∷ []) ≡ count_up n (suc k)
count_up_last n zero = ap (λ m. m ∷ []) (omega arith)
count_up_last n (suc k) =
    ap (λ l. n ∷ l)
      (ap (λ m. count_up (suc n) k ++ (m ∷ [])) (omega arith) ∙ count_up_last (suc n) k)

All-append :
    {A : Type 0} (P : A → Type 0) (xs : List A) (x : A) → All P xs → P x → All P (xs ++ (x ∷ []))
All-append P [] x h p = (p, tt)
All-append P (y ∷ ys) x h p = (h.0, All-append P ys x h.1 p)

module _ ⦃fl : Floats⦄ ⦃u : CharTables⦄ ⦃py : Python⦄ ⦃h : Entities⦄ (base_url : String) where
  -- A text, and a link to the chunk or to its module.
  abbrev pub Linked : HtmlChunk → Type 0
  Linked c = (c.text ≢ "") × (c.source_url ≡ deep_link base_url (or_else c.anchor c.parent_anchor))

  abbrev pub IsNumbered : List HtmlChunk → Type 0
  IsNumbered chunks = (map (λ c. c.ordinal) chunks ≡ count_up 1 (length chunks)) × All Linked chunks

  -- The ordinal is the number of chunks.
  abbrev IsCounted : Parsed → Type 0
  IsCounted p = (p.ordinal ≡ length p.chunks) × IsNumbered p.chunks

  -- What escapes besides an `IngestionError`.
  abbrev pub Documented : Exn → Type 0
  Documented e =
      (is_ingestion_error e ≡ true)
      ⊎ ((e ≡ builtin attribute_error)
          ⊎ ((e ≡ builtin type_error) ⊎ ((raw : String) × (py.loads raw ≡ raised e))))

  abbrev Counted : Result (Parsed) → Type 0
  Counted = Ends IsCounted Documented

  added :
      (chunk : HtmlChunk) (p : Parsed)
      → chunk.ordinal ≡ suc p.ordinal
      → Linked chunk
      → IsCounted p
      → IsCounted record { ordinal = suc p.ordinal; chunks = p.chunks ++ (chunk ∷ []) }
  added chunk p e l (c, n) = (
    ap suc c ∙ sym more,
    (
      map-append (λ (x : HtmlChunk). x.ordinal) p.chunks (chunk ∷ [])
          ∙ ap (λ o. map (λ (x : HtmlChunk). x.ordinal) p.chunks ++ (o ∷ [])) (e ∙ ap suc c)
          ∙ ap (λ xs. xs ++ (suc (length p.chunks) ∷ [])) n.0
          ∙ ap (λ m. count_up 1 (length p.chunks) ++ (m ∷ [])) (omega arith)
          ∙ count_up_last 1 (length p.chunks)
          ∙ ap (count_up 1) (sym more),
      All-append Linked p.chunks chunk n.1 l,
    ),
  )
    where
      more : length (p.chunks ++ (chunk ∷ [])) ≡ suc (length p.chunks)
      more = omega (arith, length-append p.chunks (chunk ∷ []))

  positive : (n : ℕ) → ltb 0 (suc n) ≡ true
  positive n = ground arith

  append-Counted :
      (text : String) (anchor parent : Option String) (p : Parsed)
      → IsCounted p
      → Counted (append base_url text anchor parent p)
  unfolding append
  append-Counted text anchor parent p c = elim (Bool-cases (strip text == "")) [
    | inl e ↦ rw e c
    | inr e ↦
        rw (e, positive p.ordinal)
          (added
            record {
              ordinal = suc p.ordinal;
              text = strip text;
              anchor = anchor;
              parent_anchor = parent;
              source_url = deep_link base_url (or_else anchor parent);
            }
            p refl ((λ q. ground (arith, eq_iff (strip text) "")), refl) c)
  ]

  children-Counted :
      (k : Option String) (js : List Json) (p : Parsed)
      → IsCounted p
      → Counted (parse_children base_url k js p)
  unfolding parse_children parse_child
  children-Counted k [] p c = c
  children-Counted k (j ∷ js) p c =
      Ends->>= IsCounted IsCounted Documented (parse_child base_url k j p)
        (parse_children base_url k js) (child j) (λ q d. children-Counted k js q d)
    where
      child : (j : Json) → Counted (parse_child base_url k j p)
      child (object d) = append-Counted _ _ k p c
      child null = c
      child (bool _) = c
      child (int _) = c
      child (number _) = c
      child (str _) = c
      child (array _) = c

  -- A loop over a value that is not iterable.
  iterate-Ends : (j : Json) → Ends (λ js. Unit) Documented (iterate j)
  iterate-Ends (object d) = tt
  iterate-Ends (array _) = tt
  iterate-Ends (str _) = tt
  iterate-Ends null = inr (inr (inl refl))
  iterate-Ends (bool _) = inr (inr (inl refl))
  iterate-Ends (int _) = inr (inr (inl refl))
  iterate-Ends (number _) = inr (inr (inl refl))

  module-Counted : (j : Json) (p : Parsed) → IsCounted p → Counted (parse_module base_url j p)
  unfolding parse_module
  module-Counted (object d) p c =
      Ends->>= IsCounted IsCounted Documented _ _ (append-Counted _ _ _ p c) (λ headed c1.
        Ends->>= IsCounted IsCounted Documented _ _ (append-Counted _ _ _ headed c1) (λ tooled c2.
          Ends->>= (λ js. Unit) IsCounted Documented
            (iterate (or_json (get_field d "children") (array no_items))) _ (iterate-Ends _)
            (λ children u. children-Counted _ children tooled c2)))
  module-Counted null p c = c
  module-Counted (bool _) p c = c
  module-Counted (int _) p c = c
  module-Counted (number _) p c = c
  module-Counted (str _) p c = c
  module-Counted (array _) p c = c

  modules-Counted :
      (js : List Json) (p : Parsed) → IsCounted p → Counted (parse_modules base_url js p)
  unfolding parse_modules
  modules-Counted [] p c = c
  modules-Counted (j ∷ js) p c =
      Ends->>= IsCounted IsCounted Documented (parse_module base_url j p)
        (parse_modules base_url js) (module-Counted j p c) (λ q d. modules-Counted js q d)

  payload_get-Ends : (j : Json) (key : String) → Ends (λ v. Unit) Documented (payload_get j key)
  payload_get-Ends (object d) key = found (lookup d key)
    where
      found :
          (o : Option Json)
          → Ends
              (λ v. Unit)
              Documented
              (elim o as (λ o. Result Json) [ none ↦ ok null | some value ↦ ok value ])
      found none = tt
      found (some v) = tt
  payload_get-Ends (array _) key = inr (inl refl)
  payload_get-Ends (str _) key = inr (inl refl)
  payload_get-Ends null key = inr (inl refl)
  payload_get-Ends (bool _) key = inr (inl refl)
  payload_get-Ends (int _) key = inr (inl refl)
  payload_get-Ends (number _) key = inr (inl refl)

  data-Ends : (j : Json) → Ends (λ p. IsNumbered p.chunks) Documented (parse_data base_url j)
  unfolding parse_data
  data-Ends j =
      Ends->>= (λ v. Unit) (λ p. IsNumbered p.chunks) Documented (payload_get j "title") _
        (payload_get-Ends j "title")
        (λ title a.
          Ends->>= (λ v. Unit) (λ p. IsNumbered p.chunks) Documented (payload_get j "toolList") _
            (payload_get-Ends j "toolList")
            (λ tools b.
              Ends->>= IsCounted (λ p. IsNumbered p.chunks) Documented _ _
                (append-Counted _ none none record { ordinal = 0; chunks = [] } (refl, (refl, tt)))
                (λ parsed c.
                  Ends->>= (λ v. Unit) (λ p. IsNumbered p.chunks) Documented
                    (payload_get j "modules") _ (payload_get-Ends j "modules")
                    (λ raw d.
                      Ends->>= (λ v. Unit) (λ p. IsNumbered p.chunks) Documented
                        (iterate (or_json raw (array no_items))) _ (iterate-Ends _)
                        (λ modules e.
                          Ends->>= IsCounted (λ p. IsNumbered p.chunks) Documented _ _
                            (modules-Counted modules parsed c) (λ all f. f.1))))))

  block-Ends :
      (html : String)
      → Ends
          (λ raw. Unit)
          Documented
          (except_as is_discovery_error no_block (extract_manual_data_json html))
  unfolding extract_manual_data_json
  block-Ends html =
      found (search_group manual_data_open (shortest_before (literal "</script>")) html)
    where
      found :
          (o : Option String)
          → Ends (λ raw. Unit) Documented (except_as is_discovery_error no_block (extracted o))
      found none = inl refl
      found (some group) = tt

  loads-Ends :
      (raw : String) (m : Result Json)
      → py.loads raw ≡ m
      → Ends (λ j. Unit) Documented (except_as is_decode_error not_json m)
  loads-Ends raw (ok j) e = tt
  loads-Ends raw (raised x) e = elim (Bool-cases (is_decode_error x)) [
    | inl q ↦ rw q (inl refl)
    | inr q ↦ rw q (inr (inr (inr (raw, e))))
  ]

  publication-Ends :
      (html : String) → Ends (λ p. IsNumbered p.chunks) Documented (parse_publication base_url html)
  unfolding parse_publication
  publication-Ends html =
      Ends->>= (λ v. Unit) (λ p. IsNumbered p.chunks) Documented
        (except_as is_discovery_error no_block (extract_manual_data_json html)) _ (block-Ends html)
        (λ raw a.
          Ends->>= (λ v. Unit) (λ p. IsNumbered p.chunks) Documented
            (except_as is_decode_error not_json (py.loads raw)) _
            (loads-Ends raw (py.loads raw) refl) (λ payload b. data-Ends payload))

  -- The chunks of a parsed publication are numbered 1, 2 and so on, in their order; each has a
  -- text that is not empty, and links to its own anchor, or to its module where it has none.
  pub parse_publication-IsNumbered :
      (html : String) (p : ParsedPublication)
      → parse_publication base_url html ≡ ok p
      → IsNumbered p.chunks
  parse_publication-IsNumbered html p e =
      subst (Ends (λ p. IsNumbered p.chunks) Documented) e (publication-Ends html)
