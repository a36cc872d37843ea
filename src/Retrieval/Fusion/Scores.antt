-- ===== src/Retrieval/Fusion/Scores.antt =====
-- What the fused list holds: the independent description of each score.
use torque_finder.Prelude.{
  ℕ, ◌+◌, ◌≡◌, refl, sym, ap, ◌∙◌, ◌↔◌, inl, inr, Option, none, some, List, [], ◌∷◌, ◌++◌, arith,
  if◌then◌else◌, In, ◌==◌, string_eq, nat_eq,
}
use torque_finder.Prelude.{
  Dict, Distinct, keys, get, put, get-put, keys-put-Distinct, get-In, In-get,
}
use torque_finder.Prelude.Sort.{sort_by-In, IsSorted, sort_by-Distinct, sort_by-IsSorted}
use torque_finder.Floats.{Floats}
use torque_finder.Floats.Order.{fzero}
use torque_finder.Retrieval.Hits.{FusedHit, ids}
use torque_finder.Retrieval.Fusion.{
  or_else, fuse_channel, fuse, hits_of, by_score, reciprocal_rank_fusion,
}

module _ ⦃fl : Floats⦄ where
  open fl use {Float, fle, fadd, recip}

  -- The terms `1 / (k + rank)` of one chunk in one channel, from a rank on.
  abbrev pub channel_terms : ℕ → ℕ → List (ℕ × Float) → ℕ → List Float
  channel_terms k cid [] rank = []
  channel_terms k cid ((chunk_id, _) ∷ channel) rank =
      let rest = channel_terms k cid channel (rank + 1) in
      if chunk_id == cid then recip (k + rank) ∷ rest else rest

  -- The terms of one chunk in all channels, in the order of the channels.
  abbrev pub terms : ℕ → ℕ → List (List (ℕ × Float)) → List Float
  terms k cid [] = []
  terms k cid (channel ∷ channels) = channel_terms k cid channel 1 ++ terms k cid channels

  -- The sum of the terms on top of a score that may be missing: no terms, no score.
  abbrev pub total : Option Float → List Float → Option Float
  total score [] = score
  total score (t ∷ ts) = total (some (fadd (or_else score fzero) t)) ts

  total-append :
      (score : Option Float) (xs ys : List Float)
      → total score (xs ++ ys) ≡ total (total score xs) ys
  total-append score [] ys = refl
  total-append score (x ∷ xs) ys = total-append (some (fadd (or_else score fzero) x)) xs ys

  get-fuse_channel :
      (k : ℕ) (fused : Dict ℕ Float) (rank : ℕ) (channel : List (ℕ × Float)) (cid : ℕ)
      → get (fuse_channel k fused rank channel) cid
        ≡ total (get fused cid) (channel_terms k cid channel rank)
  unfolding fuse_channel
  get-fuse_channel k fused rank [] cid = refl
  get-fuse_channel k fused rank ((chunk_id, raw) ∷ channel) cid =
      let score = fadd (or_else (get fused chunk_id) fzero) (recip (k + rank)) in
      get-fuse_channel k (put fused chunk_id score) (rank + 1) channel cid
      ∙ ap (λ o. total o (channel_terms k cid channel (rank + 1)))
          (get-put fused chunk_id cid score)
      ∙ ground arith

  get-fuse :
      (k : ℕ) (fused : Dict ℕ Float) (channels : List (List (ℕ × Float))) (cid : ℕ)
      → get (fuse k fused channels) cid ≡ total (get fused cid) (terms k cid channels)
  unfolding fuse
  get-fuse k fused [] cid = refl
  get-fuse k fused (channel ∷ channels) cid =
      get-fuse k (fuse_channel k fused 1 channel) channels cid
      ∙ ap (λ o. total o (terms k cid channels)) (get-fuse_channel k fused 1 channel cid)
      ∙ sym (total-append (get fused cid) (channel_terms k cid channel 1) (terms k cid channels))

  fuse_channel-Distinct :
      (k : ℕ) (fused : Dict ℕ Float) (rank : ℕ) (channel : List (ℕ × Float))
      → Distinct (keys fused)
      → Distinct (keys (fuse_channel k fused rank channel))
  unfolding fuse_channel
  fuse_channel-Distinct k fused rank [] h = h
  fuse_channel-Distinct k fused rank ((chunk_id, _) ∷ channel) h =
      fuse_channel-Distinct k
        (put fused chunk_id (fadd (or_else (get fused chunk_id) fzero) (recip (k + rank))))
        (rank + 1) channel (keys-put-Distinct fused chunk_id _ h)

  fuse-Distinct :
      (k : ℕ) (fused : Dict ℕ Float) (channels : List (List (ℕ × Float)))
      → Distinct (keys fused)
      → Distinct (keys (fuse k fused channels))
  unfolding fuse
  fuse-Distinct k fused [] h = h
  fuse-Distinct k fused (channel ∷ channels) h =
      fuse-Distinct k (fuse_channel k fused 1 channel) channels
        (fuse_channel-Distinct k fused 1 channel h)

  hits_of-In :
      (fused : Dict ℕ Float) (hit : FusedHit)
      → In hit (hits_of fused)
      → In (hit.chunk_id, hit.score) fused
  unfolding hits_of
  hits_of-In [] hit h = h
  hits_of-In ((i, s) ∷ fused) hit (inl e) = inl (ap (λ (x : FusedHit). (x.chunk_id, x.score)) e)
  hits_of-In ((i, s) ∷ fused) hit (inr h) = inr (hits_of-In fused hit h)

  In-hits_of :
      (fused : Dict ℕ Float) (hit : FusedHit)
      → In (hit.chunk_id, hit.score) fused
      → In hit (hits_of fused)
  unfolding hits_of
  In-hits_of [] hit h = h
  In-hits_of ((i, s) ∷ fused) hit (inl e) =
      inl (λ j. record { chunk_id = (e j).0; score = (e j).1 })
  In-hits_of ((i, s) ∷ fused) hit (inr h) = inr (In-hits_of fused hit h)

  -- A hit is in the fused list exactly when its chunk occurs in a channel and its score is the
  -- sum of `1 / (k + rank)` over the occurrences.
  pub fusion-scores :
      (channels : List (List (ℕ × Float))) (k : ℕ) (hit : FusedHit)
      → In hit (reciprocal_rank_fusion channels k)
        ↔ (total none (terms k hit.chunk_id channels) ≡ some hit.score)
  unfolding reciprocal_rank_fusion get
  fusion-scores channels k hit = (
    λ m.
        sym (get-fuse k [] channels hit.chunk_id)
        ∙ get-In fused hit.chunk_id hit.score distinct
            (hits_of-In fused hit ((sort_by-In by_score hit (hits_of fused)).0 m)),
    λ e. (sort_by-In by_score hit (hits_of fused)).1 (
        In-hits_of fused hit
          (In-get fused hit.chunk_id hit.score (get-fuse k [] channels hit.chunk_id ∙ e))),
  )
    where
      fused : Dict ℕ Float
      fused = fuse k [] channels

      distinct : Distinct (keys fused)
      distinct = fuse-Distinct k [] channels tt

  keys-hits_of : (fused : Dict ℕ Float) → ids (hits_of fused) ≡ keys fused
  unfolding hits_of
  keys-hits_of [] = refl
  keys-hits_of ((i, s) ∷ fused) = ap (◌∷◌ i) (keys-hits_of fused)

  -- Each chunk is in the fused list once, and the scores descend.
  pub fusion-ranked :
      (channels : List (List (ℕ × Float))) (k : ℕ)
      → Distinct (ids (reciprocal_rank_fusion channels k))
        × IsSorted by_score (reciprocal_rank_fusion channels k)
  unfolding reciprocal_rank_fusion
  fusion-ranked channels k = (
    sort_by-Distinct by_score (λ hit. hit.chunk_id) (hits_of (fuse k [] channels))
        (rw (keys-hits_of (fuse k [] channels)) (fuse-Distinct k [] channels tt)),
    sort_by-IsSorted by_score (λ a b. fl.fle_total b.score a.score)
        (λ a b c h h'. fl.fle_trans c.score b.score a.score h' h) (hits_of (fuse k [] channels)),
  )
