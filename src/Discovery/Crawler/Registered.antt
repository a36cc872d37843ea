-- ===== src/Discovery/Crawler/Registered.antt =====
-- A crawl that returns has registered what it found.
use torque_finder.Extraction.Parse.{is_decode_error}
use torque_finder.Ingestion.ManualData.{extract_manual_data_json}
use torque_finder.Discovery.Registry.View.{view, view-Represents}
use torque_finder.Discovery.Registry.{get_publication}
use torque_finder.Discovery.Registry.Refines.{upsert-refines}
use torque_finder.Discovery.Registry.Represents.{Represents, IsRegistry}
use torque_finder.Discovery.Registry.Catalog.{Catalog, put_in, entry}
use torque_finder.Extraction.Json.{Json, str}
use torque_finder.Discovery.Probe.{publication_of, get_or, filter_values, text_values}
use mathlib.Core.Bool.{false≢true}
use torque_finder.Prelude.{
  none, if◌then◌else◌, String, ◌≡◌, refl, sym, ap, ◌∙◌, subst, inl, inr, some, List, [], ◌∷◌,
  Bool-cases, In, ◌==◌, string_eq, nat_eq, is_some, true, if◌then◌else◌,
}
use torque_finder.Prelude.{Dict, keys}
use torque_finder.Domain.Errors.{Result, ok, ◌>>=◌, except_as}
use torque_finder.Domain.Outcome.{>>=-ok, ok-injective, Returns, Returns->>=, Returns-any}
use torque_finder.Domain.Publications.{PublicationRef, DiscoveredPublication, RegisteredPublication}
use torque_finder.Discovery.ModelPage.{parse_publication_refs}
use torque_finder.Discovery.Crawler.Known.{IsKeyed, crawl-keys}
use torque_finder.Discovery.Probe.{Hashing, build_publication, invalid_json}
use torque_finder.Prelude.{Option, ℕ}
use torque_finder.Prelude.Sort.{sort_by}
use torque_finder.Text.{text_le}
use torque_finder.Floats.{Floats}
use torque_finder.Text.Regex.{CharTables}
use torque_finder.Extraction.Json.{Python}
use torque_finder.Indexing.Store.{Postgres}
use torque_finder.Discovery.Registry.{Publications, upsert}
use torque_finder.Discovery.Crawler.{
  model_url, models_of, crawl_models, register, register_all, discover_seed,
}

module _ ⦃fl : Floats⦄ ⦃u : CharTables⦄ ⦃py : Python⦄ ⦃hs : Hashing⦄ where
  SameId : PublicationRef → DiscoveredPublication → Type 0
  SameId ref p = p.pub_id ≡ ref.pub_id

  publication_of-id :
      (ref : PublicationRef) (raw : String) (payload : Json)
      → Returns (SameId ref) (publication_of ref raw payload)
  unfolding publication_of SameId
  publication_of-id ref raw payload = after (get_or payload "title" (str "")) _ (λ title.
      after (get_or payload "locale" (str "")) _ (λ locale.
        after (filter_values payload "series") _ (λ series.
          after (filter_values payload "models") _ (λ models.
            after (filter_values payload "procedure") _ (λ procedures.
              after (text_values series) _ (λ s.
                after (text_values models) _
                  (λ m. after (text_values procedures) _ (λ p. refl))))))))
    where
      after :
          {A : Type 0} (m : Result A) (f : A → Result DiscoveredPublication)
          → ((a : A) → Returns (λ p. p.pub_id ≡ ref.pub_id) (f a))
          → Returns (λ p. p.pub_id ≡ ref.pub_id) (m >>= f)
      after m f h =
          Returns->>= (λ a. Unit) (λ p. p.pub_id ≡ ref.pub_id) m f (Returns-any m) (λ a u. h a)

  build_publication-id :
      (html : String) (ref : PublicationRef) (p : DiscoveredPublication)
      → build_publication html ref ≡ ok p
      → p.pub_id ≡ ref.pub_id
  unfolding build_publication SameId
  build_publication-id html ref p e =
      let a = >>=-ok (extract_manual_data_json html) _ _ e in
      let b = >>=-ok (except_as is_decode_error invalid_json (py.loads a.0)) _ _ a.2 in
      subst (Returns (λ p. p.pub_id ≡ ref.pub_id)) b.2 (publication_of-id ref a.0 b.0)

  module _ (fetch : String → Result String) (base_url : String) ⦃db : Postgres⦄ (now : ℕ) where
    -- The map that the new table represents knows the publication, and what the old one knew.
    Knows : String → Catalog → Publications → Type 0
    Knows k catalog rows =
        (after : Catalog) × Represents rows after
        × (is_some (after k) ≡ true)
        × ((j : String) → is_some (catalog j) ≡ true → is_some (after j) ≡ true)

    put_in-old :
        (k j : String) (p : RegisteredPublication) (catalog : Catalog)
        → is_some (catalog j) ≡ true
        → is_some (put_in k p catalog j) ≡ true
    put_in-old k j p catalog h = elim (Bool-cases (k == j)) [ inl e ↦ rw e refl | inr e ↦ rw e h ]

    register-Knows :
        (by : Dict String (List String)) (ref : PublicationRef) (rows rows' : Publications)
        (catalog : Catalog)
        → Represents rows catalog
        → register fetch base_url now by ref.pub_id ref rows ≡ ok rows'
        → Knows ref.pub_id catalog rows'
    unfolding register Knows
    register-Knows by ref rows rows' catalog r e =
        let a = >>=-ok (fetch ref.source_url) _ _ e in
        let b = >>=-ok (build_publication a.0 ref) _ _ a.2 in
        let c = >>=-ok (models_of fetch base_url by ref.pub_id) _ _ b.2 in
        let d = >>=-ok (upsert now b.0 (sort_by text_le c.0) rows) _ _ c.2 in
        let s = upsert-refines now b.0 (sort_by text_le c.0) rows catalog r in
        let same = build_publication-id a.0 ref b.0 b.1 in
        let left = ap (λ p. p.0) (ok-injective _ _ (sym s.1 ∙ d.1)) ∙ ok-injective _ _ d.2 in
        (
          put_in (b.0).pub_id (entry now b.0 (sort_by text_le c.0) (catalog (b.0).pub_id)).0
              catalog,
          subst
              (λ t. Represents t (
                put_in (b.0).pub_id (entry now b.0 (sort_by text_le c.0) (catalog (b.0).pub_id)).0
                  catalog))
              left s.2,
          ap
              (λ q. is_some (
                if q
                then some (entry now b.0 (sort_by text_le c.0) (catalog (b.0).pub_id)).0
                else catalog ref.pub_id))
              ((string_eq.test_iff (b.0).pub_id ref.pub_id).1 same),
          λ j h. put_in-old (b.0).pub_id j _ catalog h,
        )

    register_all-Knows :
        (by : Dict String (List String)) (d : Dict String PublicationRef)
        (rows rows' : Publications) (catalog : Catalog)
        → IsKeyed d
        → Represents rows catalog
        → register_all fetch base_url now by d rows ≡ ok rows'
        → (after : Catalog) × Represents rows' after
          × ((k : String) → is_some (catalog k) ≡ true → is_some (after k) ≡ true)
          × ((k : String) → In k (keys d) → is_some (after k) ≡ true)
    unfolding register_all Knows
    register_all-Knows by [] rows rows' catalog h r e = (
      catalog,
      subst (λ t. Represents t catalog) (ok-injective rows rows' e) r,
      (λ k m. m),
      (λ k m. absurd m),
    )
    register_all-Knows by ((k, ref) ∷ d) rows rows' catalog h r e =
        let a = >>=-ok (register fetch base_url now by k ref rows) _ _ e in
        let s =
          register-Knows by ref rows a.0 catalog r
            (subst (λ j. register fetch base_url now by j ref rows ≡ ok a.0) (sym h.0) a.1) in
        let t = register_all-Knows by d a.0 rows' s.0 h.1 s.1 a.2 in
        (
          t.0,
          t.1,
          (λ j m. t.2 j (s.3 j m)),
          λ j m. elim m [
            | inl q ↦ t.2 j (subst (λ i. is_some (s.0 i) ≡ true) (h.0 ∙ q) s.2)
            | inr q ↦ t.3 j q
          ],
        )

    -- A crawl from a valid table that returns leaves a table that is valid again, and has every
    -- publication in it that a crawled model page links to.
    pub discover_seed-registers :
        (ids : List String) (rows rows' : Publications) (crawled found registered : ℕ)
        (m page : String) (ref : PublicationRef)
        → IsRegistry rows
        → discover_seed fetch base_url now ids rows ≡ ok (rows', crawled, found, registered)
        → In m ids
        → fetch (model_url fetch base_url m) ≡ ok page
        → In ref (parse_publication_refs page)
        → IsRegistry rows'
          × ((p : RegisteredPublication) × (get_publication ref.pub_id rows' ≡ ok (some p)))
    unfolding discover_seed
    discover_seed-registers ids rows rows' crawled found registered m page ref v e i f n =
        let a =
          >>=-ok (crawl_models fetch base_url ids record { refs = []; referenced_by = [] }) _ _ e in
        let b =
          >>=-ok (register_all fetch base_url now (a.0).referenced_by (a.0).refs rows) _ _ a.2 in
        let k = crawl-keys fetch base_url ids record { refs = []; referenced_by = [] } a.0 a.1 in
        let s =
          register_all-Knows (a.0).referenced_by (a.0).refs rows b.0 (view rows) (k.0 tt)
            (view-Represents rows v) b.1 in
        let left = ap (λ p. p.0) (ok-injective _ _ b.2) in
        (
          subst IsRegistry left (s.1).is_registry,
          known (s.0 ref.pub_id) (s.3 ref.pub_id (k.2 m page ref i f n)) (
              subst (λ t. get_publication ref.pub_id t ≡ ok (s.0 ref.pub_id)) left
                ((s.1).answers ref.pub_id)),
        )
      where
        known :
            (o : Option RegisteredPublication)
            → is_some o ≡ true
            → get_publication ref.pub_id rows' ≡ ok o
            → (p : RegisteredPublication) × (get_publication ref.pub_id rows' ≡ ok (some p))
        known (some p) t q = (p, q)
        known none t q = absurd (false≢true t)
