-- ===== src/Retrieval/Fusion.antt =====
-- `_reciprocal_rank_fusion`
pub mod Scores
use torque_finder.Prelude.{
  ℕ, zero, suc, ◌+◌, ◌-◌, ◌*◌, ◌≤◌, ◌<◌, String, ◌≡◌, ◌≢◌, refl, sym, ap, ◌∙◌, subst, ◌↔◌, ◌⊎◌, inl,
  inr, Bool, true, false, not, ◌&&◌, ◌||◌, Option, none, some, List, [], ◌∷◌, ◌++◌, arith, eq_iff,
  if◌then◌else◌, Bool-cases, Option-cases, length, take, any, all, keep, first, In, Before, All,
  is_some, is_none, leb, ltb, ◌==◌, string_eq, nat_eq,
}
use torque_finder.Prelude.{Dict, get, put}
use torque_finder.Prelude.Sort.{sort_by}
use torque_finder.Floats.{Floats}
use torque_finder.Floats.Order.{fzero}
use torque_finder.Retrieval.Hits.{FusedHit}

-- `RRF_K`
abbrev pub rrf_k : ℕ
rrf_k = 60

-- `d.get(k, default)`
abbrev pub or_else {ℓ} : {A : Type ℓ} → Option A → A → A
or_else none d = d
or_else (some a) d = a

module _ ⦃fl : Floats⦄ where
  open fl use {Float, fle, fadd, recip}

  -- The loop over one channel, from a rank on.
  pub fuse_channel : ℕ → Dict ℕ Float → ℕ → List (ℕ × Float) → Dict ℕ Float
  fuse_channel k fused rank [] = fused
  fuse_channel k fused rank ((chunk_id, _) ∷ channel) =
      fuse_channel k
        (put fused chunk_id (fadd (or_else (get fused chunk_id) fzero) (recip (k + rank))))
        (rank + 1) channel

  -- The loop over the channels.
  pub fuse : ℕ → Dict ℕ Float → List (List (ℕ × Float)) → Dict ℕ Float
  fuse k fused [] = fused
  fuse k fused (channel ∷ channels) = fuse k (fuse_channel k fused 1 channel) channels

  -- `_FusedHit(...) for cid, score in fused.items()`
  pub hits_of : Dict ℕ Float → List FusedHit
  hits_of [] = []
  hits_of ((chunk_id, score) ∷ fused) =
      record { chunk_id = chunk_id; score = score } ∷ hits_of fused

  -- `key=lambda h: h.score, reverse=True`
  abbrev pub by_score : FusedHit → FusedHit → Bool
  by_score a b = fle b.score a.score

  unfoldable pub reciprocal_rank_fusion : List (List (ℕ × Float)) → ℕ → List FusedHit
  unfolding fuse_channel fuse hits_of
  reciprocal_rank_fusion channels k = sort_by by_score (hits_of (fuse k [] channels))
