-- ===== src/Ingestion/HtmlPipeline/Inserted.antt =====
-- What the replacement of the chunks of a document leaves.
use torque_finder.Indexing.Store.Valid.{add_chunk-with_chunk}
use torque_finder.Prelude.{
  ℕ, suc, ◌≤◌, ◌<◌, ◌≡◌, refl, sym, ap, ◌∙◌, subst, Bool, false, not, none, List, [], ◌∷◌, ◌++◌,
  arith, if◌then◌else◌, keep, All, leb, ◌==◌, string_eq, nat_eq,
}
use torque_finder.Prelude.{map, All-weaken}
use mathlib.Core.List.{append-nil, append_assoc}
use torque_finder.Prelude.Sort.{sort_by, sort_by_last}
use torque_finder.Floats.{Floats}
use torque_finder.Domain.Outcome.{Returns, Returns->>=, Returns-weaken}
use torque_finder.Domain.Documents.{HtmlChunk}
use torque_finder.Indexing.Store.{Postgres, Chunk, Store, add_chunk, with_chunk}
use torque_finder.Indexing.Repository.{insert_chunk, new_chunk, delete_chunks}
use torque_finder.Ingestion.HtmlPipeline.{insert_chunks, replace_chunks}

module _ ⦃fl : Floats⦄ where
  open fl use {Float}

  abbrev pub of_document : ℕ → Chunk → Bool
  of_document i c = c.document_id == i

  abbrev pub by_ordinal : Chunk → Chunk → Bool
  by_ordinal a b = leb a.ordinal b.ordinal

  -- The chunks of a document by their ordinals, and those of the others.
  abbrev pub document_chunks : ℕ → Store → List Chunk
  document_chunks i s = sort_by by_ordinal (keep (of_document i) s.chunks)

  abbrev pub other_chunks : ℕ → Store → List Chunk
  other_chunks i s = keep (λ c. not (of_document i c)) s.chunks

  -- What a row holds of a parsed chunk.
  abbrev pub parsed_chunk : Chunk → HtmlChunk
  parsed_chunk c = record {
    ordinal = c.ordinal;
    text = c.text;
    anchor = c.anchor;
    parent_anchor = c.parent_anchor;
    source_url = c.source_url;
  }

  -- The chunks of the document have smaller ordinals.
  abbrev pub Below : ℕ → ℕ → Store → Type 0
  Below i n s = All (λ c. c.ordinal < n) (keep (of_document i) s.chunks)

  -- The ordinals ascend, and start from a number.
  abbrev pub Ascending : ℕ → List HtmlChunk → Type 0
  Ascending n [] = Unit
  Ascending n (c ∷ cs) = (n ≤ c.ordinal) × Ascending (suc c.ordinal) cs

  -- The store has new rows of the document, behind those that it had.
  pub record Grown (i : ℕ) (cs : List HtmlChunk) (es : List (List Float)) (s s' : Store)
      : Type 0 where
    pub new_rows : List Chunk
    pub appended : document_chunks i s' ≡ document_chunks i s ++ new_rows
    pub holds_chunks : map parsed_chunk new_rows ≡ cs
    pub holds_embeddings : map (λ c. c.embedding) new_rows ≡ es
    pub no_pages : All (λ c. c.png_r2_key ≡ none) new_rows
    pub others_kept : other_chunks i s' ≡ other_chunks i s
    pub documents_kept : s'.documents ≡ s.documents

  Grown-refl : (i : ℕ) (s : Store) → Grown i [] [] s s
  Grown-refl i s = record {
    new_rows = [];
    appended = sym (append-nil (document_chunks i s));
    holds_chunks = refl;
    holds_embeddings = refl;
    no_pages = tt;
    others_kept = refl;
    documents_kept = refl;
  }

  with_chunk-own :
      (i : ℕ) (row : Chunk) (s : Store)
      → row.document_id ≡ i
      → keep (of_document i) (with_chunk row s).chunks ≡ row ∷ keep (of_document i) s.chunks
  with_chunk-own i row s e =
      ap (λ b. if b then row ∷ keep (of_document i) s.chunks else keep (of_document i) s.chunks)
        ((nat_eq.test_iff row.document_id i).1 e)

  Grown-step :
      (i : ℕ) (cs : List HtmlChunk) (es : List (List Float)) (row : Chunk) (s s' : Store)
      → row.document_id ≡ i
      → row.png_r2_key ≡ none
      → All (λ c. c.ordinal < row.ordinal) (keep (of_document i) s.chunks)
      → Grown i cs es (with_chunk row s) s'
      → Grown i (parsed_chunk row ∷ cs) (row.embedding ∷ es) s s'
  Grown-step i cs es row s s' e n b g = record {
    new_rows = row ∷ g.new_rows;
    appended =
        g.appended
        ∙ ap (λ l. l ++ g.new_rows)
            (ap (sort_by by_ordinal) (with_chunk-own i row s e)
              ∙ sort_by_last by_ordinal row (keep (of_document i) s.chunks) (
                  All-weaken (λ c. c.ordinal < row.ordinal) (λ c. by_ordinal row c ≡ false)
                    (keep (of_document i) s.chunks) (λ c l. ground arith) b))
        ∙ append_assoc (document_chunks i s) (row ∷ []) g.new_rows;
    holds_chunks = ap (λ l. parsed_chunk row ∷ l) g.holds_chunks;
    holds_embeddings = ap (λ l. row.embedding ∷ l) g.holds_embeddings;
    no_pages = (n, g.no_pages);
    others_kept =
        g.others_kept
        ∙ ap (λ b. if not b then row ∷ other_chunks i s else other_chunks i s)
            ((nat_eq.test_iff row.document_id i).1 e);
    documents_kept = g.documents_kept;
  }

  -- The new row of a chunk.
  abbrev pub row_of : ⦃db : Postgres⦄ → ℕ → HtmlChunk → List Float → Store → Chunk
  row_of ⦃db⦄ i c e s =
      new_chunk (db.next_id (map (λ c. c.id) s.chunks)) i c.ordinal c.text e c.source_url none
        c.anchor c.parent_anchor

  pub Below-step :
      (i n m : ℕ) (row : Chunk) (s : Store)
      → row.document_id ≡ i
      → Below i n s
      → n ≤ row.ordinal
      → suc row.ordinal ≤ m
      → Below i m (with_chunk row s)
  Below-step i n m row s e b l k =
      subst (All (λ c. c.ordinal < m)) (sym (with_chunk-own i row s e)) (
        k,
        All-weaken (λ c. c.ordinal < n) (λ c. c.ordinal < m) (keep (of_document i) s.chunks)
            (λ c j. omega arith) b,
      )

  insert_chunks-Grown :
      ⦃db : Postgres⦄ (i n : ℕ) (cs : List HtmlChunk) (es : List (List Float)) (s : Store)
      → Below i n s
      → Ascending n cs
      → Returns (Grown i cs es s) (insert_chunks i cs es s)
  unfolding insert_chunks insert_chunk
  insert_chunks-Grown i n [] [] s b a = Grown-refl i s
  insert_chunks-Grown i n [] (e ∷ es) s b a = tt
  insert_chunks-Grown i n (c ∷ cs) [] s b a = tt
  insert_chunks-Grown i n (c ∷ cs) (e ∷ es) s b a =
      Returns->>= (λ p. p.0 ≡ with_chunk (row_of i c e s) s) (Grown i (c ∷ cs) (e ∷ es) s) _ _
        (Returns->>= (λ t. t ≡ with_chunk (row_of i c e s) s)
          (λ p. p.0 ≡ with_chunk (row_of i c e s) s) (add_chunk (row_of i c e s) s) _
          (add_chunk-with_chunk (row_of i c e s) s) (λ t q. q))
        (λ p q.
          subst (λ t. Returns (Grown i (c ∷ cs) (e ∷ es) s) (insert_chunks i cs es t)) (sym q)
            (Returns-weaken (Grown i cs es (with_chunk (row_of i c e s) s))
              (Grown i (c ∷ cs) (e ∷ es) s) (insert_chunks i cs es (with_chunk (row_of i c e s) s))
              (λ s' g.
                Grown-step i cs es (row_of i c e s) s s' refl refl
                  (All-weaken (λ c'. c'.ordinal < n) (λ c'. c'.ordinal < c.ordinal)
                    (keep (of_document i) s.chunks) (λ c' j. omega (arith, a.0)) b)
                  g)
              (insert_chunks-Grown i (suc c.ordinal) cs es (with_chunk (row_of i c e s) s)
                (Below-step i n (suc c.ordinal) (row_of i c e s) s refl b a.0 (omega arith)) a.1)))

  sorted_nil : (l : List Chunk) → sort_by by_ordinal [] ++ l ≡ l
  unfolding sort_by
  sorted_nil l = refl

  pub keep-rest : {A : Type 0} (p : A → Bool) (xs : List A) → keep p (keep (λ x. not (p x)) xs) ≡ []
  keep-rest p [] = refl
  keep-rest p (x ∷ xs) = ground (arith, keep-rest p xs)

  keep-keep : {A : Type 0} (p : A → Bool) (xs : List A) → keep p (keep p xs) ≡ keep p xs
  keep-keep p [] = refl
  keep-keep p (x ∷ xs) = ground (arith, keep-keep p xs)

  -- The rows of the document are the chunks, in their order, and no other row has changed.
  pub record Holds (i : ℕ) (cs : List HtmlChunk) (es : List (List Float)) (s s' : Store)
      : Type 0 where
    pub holds_chunks : map parsed_chunk (document_chunks i s') ≡ cs
    pub holds_embeddings : map (λ c. c.embedding) (document_chunks i s') ≡ es
    pub no_pages : All (λ c. c.png_r2_key ≡ none) (document_chunks i s')
    pub others_kept : other_chunks i s' ≡ other_chunks i s
    pub documents_kept : s'.documents ≡ s.documents

  pub replace_chunks-Holds :
      ⦃db : Postgres⦄ (i : ℕ) (cs : List HtmlChunk) (es : List (List Float)) (s : Store)
      → Ascending 1 cs
      → Returns (Holds i cs es s) (replace_chunks i cs es s)
  unfolding replace_chunks delete_chunks
  replace_chunks-Holds i cs es s a =
      Returns-weaken (Grown i cs es rest) (Holds i cs es s) (insert_chunks i cs es rest) held
        (insert_chunks-Grown i 1 cs es rest (subst (All (λ c. c.ordinal < 1)) (sym none_left) tt) a)
    where
      rest : Store
      rest = record { documents = s.documents; chunks = other_chunks i s }

      none_left : keep (of_document i) (other_chunks i s) ≡ []
      none_left = keep-rest (of_document i) s.chunks

      held : (s' : Store) → Grown i cs es rest s' → Holds i cs es s s'
      held s' g = record {
        holds_chunks = ap (map parsed_chunk) rows ∙ g.holds_chunks;
        holds_embeddings = ap (map (λ c. c.embedding)) rows ∙ g.holds_embeddings;
        no_pages = subst (All (λ c. c.png_r2_key ≡ none)) (sym rows) g.no_pages;
        others_kept = g.others_kept ∙ keep-keep (λ c. not (of_document i c)) s.chunks;
        documents_kept = g.documents_kept;
      }
        where
          rows : document_chunks i s' ≡ g.new_rows
          rows =
              g.appended
              ∙ ap (λ l. sort_by by_ordinal l ++ g.new_rows) none_left
              ∙ sorted_nil g.new_rows
