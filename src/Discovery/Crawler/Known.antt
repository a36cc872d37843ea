-- ===== src/Discovery/Crawler/Known.antt =====
-- Which publications a crawl registers.
use torque_finder.Prelude.{
  String, ◌≡◌, refl, sym, ap, ◌∙◌, subst, inl, inr, not, ◌&&◌, some, List, [], ◌∷◌, arith,
  Bool-cases, Option-cases, In, All, ◌==◌, string_eq, nat_eq, none≢some,
}
use torque_finder.Prelude.{Dict, get, put, keys, In-put_new, In-put_old}
use torque_finder.Domain.Errors.{Result, ok}
use torque_finder.Domain.Outcome.{>>=-ok, ok-injective}
use torque_finder.Domain.Publications.{PublicationRef}
use torque_finder.Discovery.ModelPage.{prefer_typed, parse_publication_refs}
use torque_finder.Discovery.Crawler.{Found, note_refs, model_url, crawl_models}

-- Each ref stands under its own id.
abbrev pub IsKeyed : Dict String PublicationRef → Type 0
IsKeyed d = All (λ x. (x.1).pub_id ≡ x.0) d

put-IsKeyed :
    (d : Dict String PublicationRef) (ref : PublicationRef)
    → IsKeyed d
    → IsKeyed (put d ref.pub_id ref)
unfolding put
put-IsKeyed [] ref h = (refl, tt)
put-IsKeyed ((i, w) ∷ d) ref h = elim (Bool-cases (i == ref.pub_id)) [
  | inl q ↦ rw q (sym ((string_eq.test_iff i ref.pub_id).0 q), h.1)
  | inr q ↦ rw q (h.0, put-IsKeyed d ref h.1)
]

In-get_some :
    (d : Dict String PublicationRef) (k : String) (v : PublicationRef)
    → get d k ≡ some v
    → In k (keys d)
unfolding get
In-get_some [] k v e = absurd (none≢some e)
In-get_some ((i, w) ∷ d) k v e = ground (arith, string_eq.test_iff i k, In-get_some d k v)

-- What holds of the refs after one more.
record Noted (d d' : Dict String PublicationRef) (ref : PublicationRef) : Type 0 where
  keyed : IsKeyed d → IsKeyed d'
  has_new : In ref.pub_id (keys d')
  has_old : (k : String) → In k (keys d) → In k (keys d')

put-Noted :
    (d : Dict String PublicationRef) (ref : PublicationRef) → Noted d (put d ref.pub_id ref) ref
put-Noted d ref = record {
  keyed = put-IsKeyed d ref;
  has_new = In-put_new d ref.pub_id ref;
  has_old = λ k h. In-put_old d ref.pub_id k ref h;
}

prefer_typed-Noted :
    (d : Dict String PublicationRef) (ref : PublicationRef) → Noted d (prefer_typed d ref) ref
unfolding prefer_typed
prefer_typed-Noted d ref = elim (Option-cases (get d ref.pub_id)) [
  | inl e ↦ rw (e, prefer_typed) (put-Noted d ref)
  | inr (known, e) ↦
      rw (e, prefer_typed)
        (elim (Bool-cases (not (ref.pub_type == "") && known.pub_type == "")) [
          | inl t ↦ rw t (put-Noted d ref)
          | inr t ↦ rw t record {
            keyed = λ h. h;
            has_new = In-get_some d ref.pub_id known e;
            has_old = λ k h. h;
          }
        ])
]

note_refs-keyed :
    (m : String) (refs : List PublicationRef) (f : Found)
    → IsKeyed f.refs
    → IsKeyed (note_refs m refs f).refs
unfolding note_refs
note_refs-keyed m [] f h = h
note_refs-keyed m (ref ∷ refs) f h =
    note_refs-keyed m refs _ ((prefer_typed-Noted f.refs ref).keyed h)

note_refs-old :
    (m : String) (refs : List PublicationRef) (f : Found) (k : String)
    → In k (keys f.refs)
    → In k (keys (note_refs m refs f).refs)
unfolding note_refs
note_refs-old m [] f k h = h
note_refs-old m (ref ∷ refs) f k h =
    note_refs-old m refs _ k ((prefer_typed-Noted f.refs ref).has_old k h)

note_refs-new :
    (m : String) (refs : List PublicationRef) (f : Found) (ref : PublicationRef)
    → In ref refs
    → In ref.pub_id (keys (note_refs m refs f).refs)
unfolding note_refs
note_refs-new m [] f ref h = absurd h
note_refs-new m (r ∷ refs) f ref (inl e) = note_refs-old m refs _ ref.pub_id (
    subst (λ x. In x.pub_id (keys (prefer_typed f.refs r))) e (prefer_typed-Noted f.refs r).has_new)
note_refs-new m (r ∷ refs) f ref (inr h) = note_refs-new m refs _ ref h

module _ (fetch : String → Result String) (base_url : String) where
  -- The refs of the pages that are still to be crawled, and those found before.
  pub crawl-keys :
      (ids : List String) (f g : Found)
      → crawl_models fetch base_url ids f ≡ ok g
      → (IsKeyed f.refs → IsKeyed g.refs)
        × ((k : String) → In k (keys f.refs) → In k (keys g.refs))
        × ((m page : String) (ref : PublicationRef)
            → In m ids
            → fetch (model_url fetch base_url m) ≡ ok page
            → In ref (parse_publication_refs page)
            → In ref.pub_id (keys g.refs))
  unfolding crawl_models
  crawl-keys [] f g e = (
    λ h. subst (λ x. IsKeyed x.refs) (ok-injective f g e) h,
    λ k h. subst (λ x. In k (keys x.refs)) (ok-injective f g e) h,
    λ m page ref h. absurd h,
  )
  crawl-keys (i ∷ ids) f g e =
      let a = >>=-ok (fetch (model_url fetch base_url i)) _ _ e in
      let r = crawl-keys ids (note_refs i (parse_publication_refs a.0) f) g a.2 in
      (
        λ h. r.0 (note_refs-keyed i (parse_publication_refs a.0) f h),
        λ k h. r.1 k (note_refs-old i (parse_publication_refs a.0) f k h),
        λ m page ref h. elim h [
          | inr later ↦ r.2 m page ref later
          | inl now ↦ λ p n. r.1 ref.pub_id (
              note_refs-new i (parse_publication_refs a.0) f ref (
                subst (λ x. In ref (parse_publication_refs x))
                  (ok-injective page a.0
                    (sym p ∙ sym (ap (λ j. fetch (model_url fetch base_url j)) now) ∙ a.1))
                  n))
        ],
      )
