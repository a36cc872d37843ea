-- ===== src/Ingestion/HtmlPipeline/ModuleText.antt =====
-- The chunks of a parsed publication ascend, and the text of a module of the rows that hold them.
use torque_finder.Prelude.{
  ℕ, suc, String, ◌≡◌, refl, sym, ap, ◌∙◌, subst, inl, inr, Bool, true, false, ◌&&◌, some, List, [],
  ◌∷◌, arith, Bool-cases, length, keep, ◌==◌, string_eq, nat_eq, opt_eq,
}
use torque_finder.Prelude.{map}
use torque_finder.Prelude.Sort.{sort_by, keep-sort_by}
use torque_finder.Floats.{Floats}
use torque_finder.Text.{join}
use torque_finder.Domain.Documents.{HtmlChunk}
use torque_finder.Indexing.Store.{Chunk, Store}
use torque_finder.Indexing.Repository.{fetch_module_text}
use torque_finder.Ingestion.HtmlParser.Publication.Numbered.{count_up}
use torque_finder.Ingestion.HtmlPipeline.Inserted.{
  of_document, by_ordinal, document_chunks, parsed_chunk, Ascending, Holds,
}

module _ ⦃fl : Floats⦄ where
  open fl use {Float}

  pub Ascending-count_up :
      (n : ℕ) (cs : List HtmlChunk)
      → map (λ c. c.ordinal) cs ≡ count_up n (length cs)
      → Ascending n cs
  Ascending-count_up n [] e = tt
  Ascending-count_up n (c ∷ cs) e = (
    omega (arith, head_eq),
    subst (λ k. Ascending (suc k) cs) (sym head_eq) (Ascending-count_up (suc n) cs tail_eq),
  )
    where
      head_or : List ℕ → ℕ
      head_or [] = 0
      head_or (x ∷ xs) = x

      tail_of : List ℕ → List ℕ
      tail_of [] = []
      tail_of (x ∷ xs) = xs

      head_eq : c.ordinal ≡ n
      head_eq = ap head_or e

      tail_eq : map (λ c. c.ordinal) cs ≡ count_up (suc n) (length cs)
      tail_eq = ap tail_of e

  keep-and :
      {A : Type 0} (p q : A → Bool) (xs : List A) → keep (λ x. p x && q x) xs ≡ keep q (keep p xs)
  keep-and p q [] = refl
  keep-and p q (x ∷ xs) = ground (arith, keep-and p q xs)

  texts-parsed :
      (m : String) (cs : List Chunk)
      → map (λ c. c.text) (keep (λ c. c.parent_anchor == some m) cs)
        ≡ map (λ c. c.text) (keep (λ c. c.parent_anchor == some m) (map parsed_chunk cs))
  texts-parsed m [] = refl
  texts-parsed m (c ∷ cs) = elim (Bool-cases (c.parent_anchor == some m)) [
    | inl e ↦ rw e (ap (λ l. c.text ∷ l) (texts-parsed m cs))
    | inr e ↦ rw e (texts-parsed m cs)
  ]

  ordinal_total : (a b : Chunk) → by_ordinal a b ≡ false → by_ordinal b a ≡ true
  ordinal_total a b e = ground arith

  ordinal_trans :
      (a b c : Chunk) → by_ordinal a b ≡ true → by_ordinal b c ≡ true → by_ordinal a c ≡ true
  ordinal_trans a b c e f = ground arith

  -- The text of a module is that of the parsed chunks that name it as their parent.
  pub module_text-Holds :
      (i : ℕ) (cs : List HtmlChunk) (es : List (List Float)) (s s' : Store) (m : String)
      → Holds i cs es s s'
      → fetch_module_text i m s'
        ≡ join "\n\n" (map (λ c. c.text) (keep (λ c. c.parent_anchor == some m) cs))
  unfolding fetch_module_text
  module_text-Holds i cs es s s' m h =
      ap (λ l. join "\n\n" (map (λ c. c.text) l))
        (ap (sort_by by_ordinal)
            (keep-and (of_document i) (λ c. c.parent_anchor == some m) s'.chunks)
          ∙ sym (
              keep-sort_by by_ordinal ordinal_total ordinal_trans (λ c. c.parent_anchor == some m)
                (keep (of_document i) s'.chunks)))
      ∙ ap (join "\n\n") (
          texts-parsed m (document_chunks i s')
          ∙ ap (λ l. map (λ c. c.text) (keep (λ c. c.parent_anchor == some m) l)) h.holds_chunks)
