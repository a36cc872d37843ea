-- ===== src/Extraction/Extractor/Health.antt =====
-- The readiness signal over a history of calls of `extract`.
use torque_finder.Prelude.{
  String, ◌≡◌, refl, ap, ◌∙◌, Bool, true, false, Option, none, some, List, [], ◌∷◌, string_eq,
  nat_eq,
}
use torque_finder.Floats.{Floats}
use torque_finder.Text.Regex.{CharTables}
use torque_finder.ProductMatch.Sets.{HashOrder}
use torque_finder.Domain.Errors.{ok, raised, Result}
use torque_finder.Extraction.Json.{Python}
use torque_finder.Extraction.Client.{
  ExtractionCandidate, UserBlock, Reply, replied, api_failure, other_failure, build_user_blocks,
}
use torque_finder.Prelude.{if◌then◌else◌, sym, subst}
use torque_finder.Extraction.Extractor.{
  stub_answer, Extractor, upstream_healthy, finish, send, extract,
}

-- One call of `extract`, with what the SDK would answer.
pub record Call : Type 0 where
  pub create : List UserBlock → Reply
  pub query : String
  pub candidates : List ExtractionCandidate

-- Whether the upstream was up, if the reply tells.
abbrev pub signal : Reply → Option Bool
signal (replied _) = some true
signal (api_failure _) = some false
signal (other_failure _) = none

-- What a call tells of the upstream, if it gets that far.
abbrev pub signal_of_blocks : Call → Result (List UserBlock) → Option Bool
signal_of_blocks call (raised e) = none
signal_of_blocks call (ok blocks) = signal (call.create blocks)

abbrev pub signal_of_call : Call → List ExtractionCandidate → Option Bool
signal_of_call call [] = none
signal_of_call call (c ∷ cs) = signal_of_blocks call (build_user_blocks call.query (c ∷ cs))

abbrev pub newest : Option Bool → Option Bool → Option Bool
newest older (some b) = some b
newest older none = older

-- The most recent signal of a history.
abbrev pub last_signal : List Call → Option Bool
last_signal [] = none
last_signal (call ∷ calls) = newest (signal_of_call call call.candidates) (last_signal calls)

abbrev pub healthy_after : Option Bool → Bool → Bool
healthy_after none before = before
healthy_after (some b) before = b

module _ ⦃fl : Floats⦄ ⦃py : Python⦄ ⦃h : HashOrder⦄ ⦃u : CharTables⦄ where
  -- A history of calls, one after the other.
  abbrev pub serve : Extractor → List Call → Extractor
  serve x [] = x
  serve x (call ∷ calls) = serve (extract call.create x call.query call.candidates).0 calls

  finish-health :
      (x : Extractor) (query : String) (cs : List ExtractionCandidate) (reply : Reply)
      → ((finish x query cs reply).0.last_upstream_ok
          ≡ healthy_after (signal reply) x.last_upstream_ok)
        × ((finish x query cs reply).0.stub ≡ x.stub)
  unfolding finish
  finish-health x query cs (replied m) = (refl, refl)
  finish-health x query cs (api_failure e) = (refl, refl)
  finish-health x query cs (other_failure e) = (refl, refl)

  send-health :
      (call : Call) (x : Extractor) (cs : List ExtractionCandidate)
      (blocks : Result (List UserBlock))
      → ((send call.create x call.query cs blocks).0.last_upstream_ok
          ≡ healthy_after (signal_of_blocks call blocks) x.last_upstream_ok)
        × ((send call.create x call.query cs blocks).0.stub ≡ x.stub)
  send-health call x cs (raised e) = (refl, refl)
  send-health call x cs (ok blocks) = finish-health x call.query cs (call.create blocks)

  pub extract_not_stub :
      (create : List UserBlock → Reply) (x : Extractor) (query : String) (c : ExtractionCandidate)
      (cs : List ExtractionCandidate)
      → x.stub ≡ false
      → extract create x query (c ∷ cs)
        ≡ send create x query (c ∷ cs) (build_user_blocks query (c ∷ cs))
  unfolding extract
  extract_not_stub create x query c cs s =
      ap
        (λ b.
          if b
          then (x, ok (stub_answer c))
          else send create x query (c ∷ cs) (build_user_blocks query (c ∷ cs)))
        s

  extract-health :
      (call : Call) (x : Extractor) (cs : List ExtractionCandidate)
      → x.stub ≡ false
      → ((extract call.create x call.query cs).0.last_upstream_ok
          ≡ healthy_after (signal_of_call call cs) x.last_upstream_ok)
        × ((extract call.create x call.query cs).0.stub ≡ false)
  unfolding extract
  extract-health call x [] s = (refl, s)
  extract-health call x (c ∷ cs) s =
      let sent = send-health call x (c ∷ cs) (build_user_blocks call.query (c ∷ cs)) in
      subst
        (λ r.
          (r.0.last_upstream_ok ≡ healthy_after (signal_of_call call (c ∷ cs)) x.last_upstream_ok)
          × (r.0.stub ≡ false))
        (sym (extract_not_stub call.create x call.query c cs s)) (sent.0, sent.1 ∙ s)

  -- After any history of calls of an extractor that is no stub, the readiness signal is the
  -- outcome of the most recent call that got an answer or an API error from the upstream, and
  -- without such a call it is what it was before.
  pub serve-upstream_healthy :
      (x : Extractor) (calls : List Call)
      → x.stub ≡ false
      → upstream_healthy (serve x calls) ≡ healthy_after (last_signal calls) (upstream_healthy x)
  serve-upstream_healthy x [] s = refl
  serve-upstream_healthy x (call ∷ calls) s =
      let step = extract-health call x call.candidates s in
      serve-upstream_healthy (extract call.create x call.query call.candidates).0 calls step.1
      ∙ ap (healthy_after (last_signal calls)) step.0
      ∙ nested (signal_of_call call call.candidates) (last_signal calls) x.last_upstream_ok
    where
      nested :
          (older newer : Option Bool) (before : Bool)
          → healthy_after newer (healthy_after older before)
            ≡ healthy_after (newest older newer) before
      nested older none before = refl
      nested older (some b) before = refl
