-- ===== src/Retrieval/Embedder/Batches.antt =====
-- The batches of `embed_documents`.
use mathlib.Core.List.{append-nil, append_assoc, map-append}
use torque_finder.Domain.Outcome.{Raises}
use torque_finder.Domain.Errors.{Exn, raised, is_retrieval_error, retrieval_error, ◌>>=◌, wrap}
use torque_finder.Prelude.{
  ℕ, ◌+◌, ◌≤◌, String, ◌≡◌, refl, false, List, [], ◌∷◌, ◌++◌, arith, length, All, string_eq, nat_eq,
  Option, map, none, ap, true, sym, Bool-cases, inr, Bool, ◌∙◌, ◌==◌, if◌then◌else◌, some, inl,
  subst,
}
use torque_finder.Prelude.{length-append}
use torque_finder.Text.Words.{len-clip}
use torque_finder.Text.{len, clip}
use torque_finder.Retrieval.Embedder.{
  max_batch_texts, max_batch_tokens, max_text_chars, estimate_tokens, is_full, embed_query, Result,
  embed, ok, send_rest, embed_batches, embed_documents, first_vector, checked,
}

abbrev pub token_sum : List String → ℕ
token_sum [] = 0
token_sum (t ∷ ts) = estimate_tokens t + token_sum ts

-- What the service accepts: some texts, at most 96, of at most 100000 tokens together, and no
-- text of more than 96000 characters.
pub record IsAccepted (batch : List String) : Type 0 where
  pub some_texts : 1 ≤ length batch
  pub few_texts : length batch ≤ max_batch_texts
  pub few_tokens : token_sum batch ≤ max_batch_tokens
  pub short_texts : All (λ t. len t ≤ max_text_chars) batch

estimate-clip : (text : String) → estimate_tokens (clip max_text_chars text) ≤ 32000
unfolding estimate_tokens
estimate-clip text = ground (arith, len-clip max_text_chars text)

token_sum-append : (xs ys : List String) → token_sum (xs ++ ys) ≡ token_sum xs + token_sum ys
token_sum-append [] ys = omega arith
token_sum-append (x ∷ xs) ys = omega (arith, token_sum-append xs ys)

All-append : (P : String → Type 0) (xs ys : List String) → All P xs → All P ys → All P (xs ++ ys)
All-append P [] ys h k = k
All-append P (x ∷ xs) ys h k = (h.0, All-append P xs ys h.1 k)

-- The open batch fits, and its tokens are counted.
record IsOpen (batch : List String) (tokens : ℕ) : Type 0 where
  counted : tokens ≡ token_sum batch
  few_texts : length batch ≤ max_batch_texts
  few_tokens : token_sum batch ≤ max_batch_tokens
  short_texts : All (λ t. len t ≤ max_text_chars) batch

IsOpen-single :
    (text : String)
    → IsOpen (clip max_text_chars text ∷ []) (estimate_tokens (clip max_text_chars text))
IsOpen-single text = record {
  counted = omega arith;
  few_texts = omega arith;
  few_tokens = omega (arith, estimate-clip text);
  short_texts = (len-clip max_text_chars text, tt);
}

IsOpen-add :
    (batch : List String) (n : ℕ) (text : String)
    → IsOpen batch n
    → is_full batch n (estimate_tokens (clip max_text_chars text)) ≡ false
    → IsOpen
        (batch ++ (clip max_text_chars text ∷ []))
        (n + estimate_tokens (clip max_text_chars text))
IsOpen-add [] n text o e = record {
  counted = omega (arith, o.counted);
  few_texts = omega arith;
  few_tokens = omega (arith, estimate-clip text);
  short_texts = (len-clip max_text_chars text, tt);
}
IsOpen-add (b ∷ bs) n text o e =
    let t = clip max_text_chars text in
    record {
      counted = omega (arith, o.counted, token_sum-append (b ∷ bs) (t ∷ []));
      few_texts = ground (arith, length-append (b ∷ bs) (t ∷ []));
      few_tokens = ground (arith, o.counted, token_sum-append (b ∷ bs) (t ∷ []));
      short_texts =
          All-append (λ s. len s ≤ max_text_chars) (b ∷ bs) (t ∷ []) o.short_texts
            (len-clip max_text_chars text, tt);
    }

accepted : (b : String) (bs : List String) (n : ℕ) → IsOpen (b ∷ bs) n → IsAccepted (b ∷ bs)
accepted b bs n o = record {
  some_texts = omega arith;
  few_texts = o.few_texts;
  few_tokens = o.few_tokens;
  short_texts = o.short_texts;
}

module _ {Vector : Type 0} where
  -- Whatever the client raises or answers, a query is embedded or a `RetrievalError` is raised.
  pub embed_query-raises :
      (client : List String → Result (Option (List Vector))) (text : String) (e : Exn)
      → embed_query (embed none client) text ≡ raised e
      → (is_retrieval_error e ≡ true)
  unfolding embed_query embed
  embed_query-raises client text e q =
      subst (Raises (λ x. is_retrieval_error x ≡ true)) q (one_vector (client (text ∷ [])))
    where
      picked :
          (vs : List Vector) (b : Bool)
          → (length vs == 1) ≡ b
          → Raises
              (λ x. is_retrieval_error x ≡ true)
              ((if b
                  then ok vs
                  else raised (
                      retrieval_error
                        "Voyage embedding response was malformed (missing or short embeddings list)"))
                >>= first_vector)
      picked vs false z = refl
      picked [] true z = cc
      picked (v ∷ vs) true z = tt

      one_vector :
          (m : Result (Option (List Vector)))
          → Raises
              (λ x. is_retrieval_error x ≡ true)
              ((wrap (retrieval_error "Voyage embedding request failed") m >>= checked (text ∷ []))
                >>= first_vector)
      one_vector (raised _) = refl
      one_vector (ok none) = refl
      one_vector (ok (some vs)) = picked vs (length vs == 1) refl

  module _ (send : List String → Result (List Vector)) (f : String → Vector)
      (answers : (batch : List String) → IsAccepted batch → send batch ≡ ok (map f batch)) where
    send_rest-sent :
        (vectors : List Vector) (batch : List String) (n : ℕ)
        → IsOpen batch n
        → send_rest send vectors batch ≡ ok (vectors ++ map f (batch ++ []))
    send_rest-sent vectors [] n o = ap ok (sym (append-nil vectors))
    send_rest-sent vectors (b ∷ bs) n o =
        ap (λ m. m >>= λ more. ok (vectors ++ more)) (answers (b ∷ bs) (accepted b bs n o))
        ∙ ap (λ l. ok (vectors ++ map f l)) (sym (append-nil (b ∷ bs)))

    embed_batches-sent :
        (vectors : List Vector) (batch : List String) (n : ℕ) (texts : List String)
        → IsOpen batch n
        → embed_batches send vectors batch n texts
          ≡ ok (vectors ++ map f (batch ++ map (clip max_text_chars) texts))
    unfolding embed_batches
    embed_batches-sent vectors batch n [] o = send_rest-sent vectors batch n o
    embed_batches-sent vectors batch n (text ∷ texts) o =
        let t = clip max_text_chars text in
        let est = estimate_tokens t in
        elim (Bool-cases (is_full batch n est)) [
          | inr e ↦
              rw (e, embed_batches)
                (embed_batches-sent vectors (batch ++ (t ∷ [])) (n + est) texts
                    (IsOpen-add batch n text o e)
                  ∙ ap (λ l. ok (vectors ++ map f l))
                      (append_assoc batch (t ∷ []) (map (clip max_text_chars) texts)))
          | inl e ↦
              rw (e, embed_batches)
                (ap (λ m. m >>= λ more. embed_batches send (vectors ++ more) (t ∷ []) est texts)
                    (answers batch (full_accepted batch n est e o))
                  ∙ embed_batches-sent (vectors ++ map f batch) (t ∷ []) est texts
                      (IsOpen-single text)
                  ∙ ap ok (
                      append_assoc vectors (map f batch)
                        (map f (t ∷ map (clip max_text_chars) texts)))
                  ∙ ap (λ l. ok (vectors ++ l))
                      (sym (map-append f batch (t ∷ map (clip max_text_chars) texts))))
        ]
      where
        full_accepted :
            (batch : List String) (n est : ℕ)
            → is_full batch n est ≡ true
            → IsOpen batch n
            → IsAccepted batch
        full_accepted [] n est e o = cc
        full_accepted (b ∷ bs) n est e o = accepted b bs n o

    -- If the service embeds each text of a batch within its limits (at least one text, at most 96
    -- texts, at most 100000 estimated tokens, no text above 96000 characters) independently of
    -- the others, the result is the embeddings of the clipped texts, in their order: no batch
    -- that is sent exceeds the limits, and no text is lost, repeated or moved.
    pub embed_documents-map :
        (texts : List String)
        → embed_documents send texts ≡ ok (map f (map (clip max_text_chars) texts))
    unfolding embed_documents
    embed_documents-map texts = embed_batches-sent [] [] 0 texts record {
      counted = refl;
      few_texts = omega arith;
      few_tokens = omega arith;
      short_texts = tt;
    }
