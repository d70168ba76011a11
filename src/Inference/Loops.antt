-- ===== src/Inference/Loops.antt =====
-- person2_ssd/inference_backend.py: what the loops of reads count, and what they return.
use ai_ssd.Prelude.{
  ℕ, ◌+◌, ◌<◌, ◌≡◌, refl, ap, ◌∙◌, Option, List, [], ◌∷◌, length, Result, ok, arith,
}
use ai_ssd.Prelude.Dict.{Dict, nat_key, pair_key, insert}
use ai_ssd.Inference.Device.{Device}
use ai_ssd.Inference.State.{counted, Entry, Stats}
use ai_ssd.Inference.Store.{RealInferenceStorageBackend}
use ai_ssd.Inference.Batches.{channel_of, counted_page, count_page, gather, one_by_one}
use ai_ssd.Inference.Ready.{IsCounted, present-add_at}

-- the results of a sequence of reads, by their blocks
unfoldable pub results_of : {A : Type 0} → (ℕ → A) → List ℕ → Dict ℕ A → Dict ℕ A
results_of get [] results = results
results_of get (bid ∷ bids) results = results_of get bids (insert bid (get bid) results)

unfoldable pub total_of : (ℕ → ℕ) → List ℕ → ℕ
total_of size [] = 0
total_of size (bid ∷ bids) = size bid + total_of size bids

-- the counters after a sequence of steps
unfoldable pub after_all : (Stats → ℕ → Stats) → List ℕ → Stats → Stats
after_all step [] s = s
after_all step (bid ∷ bids) s = after_all step bids (step s bid)

module _ (n : ℕ) (step : Stats → ℕ → Stats)
    (keeps : (s : Stats) (bid : ℕ) → IsCounted n s → IsCounted n (step s bid)) where
  after_all-IsCounted :
      (bids : List ℕ) (s : Stats) → IsCounted n s → IsCounted n (after_all step bids s)
  unfolding after_all
  after_all-IsCounted [] s h = h
  after_all-IsCounted (bid ∷ bids) s h = after_all-IsCounted bids (step s bid) (keeps s bid h)

  module _ (dev : Device) (b : RealInferenceStorageBackend dev) {A : Type 0} (get : ℕ → A)
      (read : RealInferenceStorageBackend dev → ℕ → Result (RealInferenceStorageBackend dev × A))
      (reads : (s : Stats) (bid : ℕ)
        → IsCounted n s
        → read (record b { stats = s }) bid ≡ ok (record b { stats = step s bid }, get bid)) where
    pub one_by_one_ready :
        (bids : List ℕ) (s : Stats) (results : Dict ℕ A)
        → IsCounted n s
        → one_by_one dev read (record b { stats = s }) bids results
          ≡ (record b { stats = after_all step bids s }, ok (results_of get bids results))
    unfolding one_by_one after_all results_of
    one_by_one_ready [] s results h = refl
    one_by_one_ready (bid ∷ bids) s results h =
        rw (one_by_one, reads s bid h)
          (one_by_one_ready bids (step s bid) (insert bid (get bid) results) (keeps s bid h))

counted_page-IsCounted :
    (n : ℕ) (s : Stats) (ch k : ℕ) → IsCounted n s → IsCounted n (counted_page s ch k)
unfolding counted_page
counted_page-IsCounted n s ch k (cc, w, wb, r, rb) = (
  cc,
  w,
  wb,
  (λ c h. present-add_at c ch 1 s.per_channel_reads (r c h)),
  (λ c h. present-add_at c ch k s.per_channel_read_bytes (rb c h)),
)

count_page_ready :
    (n : ℕ) (s : Stats) (ch k : ℕ)
    → IsCounted n s
    → ch < n
    → count_page s ch k ≡ counted (counted_page s ch k)
unfolding count_page
count_page_ready n s ch k (cc, w, wb, r, rb) below =
    let reads = r ch below in let bytes = rb ch below in rw (count_page, reads, bytes) refl

-- a counter to which every step adds an amount
pub after_all-adds :
    (step : Stats → ℕ → Stats) (field : Stats → ℕ) (amount : ℕ → ℕ)
    → ((s : Stats) (bid : ℕ) → field (step s bid) ≡ field s + amount bid)
    → (bids : List ℕ) (s : Stats) → field (after_all step bids s) ≡ field s + total_of amount bids
unfolding after_all total_of
after_all-adds step field amount adds [] s = omega arith
after_all-adds step field amount adds (bid ∷ bids) s =
    omega (arith, after_all-adds step field amount adds bids (step s bid), adds s bid)

pub total_of-one : (bids : List ℕ) → total_of (λ bid. 1) bids ≡ length bids
unfolding total_of
total_of-one [] = refl
total_of-one (bid ∷ bids) = omega (arith, total_of-one bids)

pub total_of-zero : (bids : List ℕ) → total_of (λ bid. 0) bids ≡ 0
unfolding total_of
total_of-zero [] = refl
total_of-zero (bid ∷ bids) = omega (arith, total_of-zero bids)

module _ (b_n : ℕ) {A : Type 0} (page : ℕ → Option Entry) (size : Option Entry → ℕ)
    (get : Option Entry → Result A) (value : ℕ → A)
    (got : (bid : ℕ) → get (page bid) ≡ ok (value bid))
    (bounded : (bid : ℕ) → channel_of (page bid) < b_n) where
  pub gather_ready :
      (bids : List ℕ) (s : Stats) (total : ℕ) (results : Dict ℕ A)
      → IsCounted b_n s
      → gather page size get bids s total results ≡ (
        after_all (λ t bid. counted_page t (channel_of (page bid)) (size (page bid))) bids s,
        ok (total + total_of (λ bid. size (page bid)) bids, results_of value bids results),
      )
  unfolding gather after_all results_of total_of
  gather_ready [] s total results h =
      let same : total ≡ total + 0 = omega arith in ap (λ x. (s, ok (x, results))) same
  gather_ready (bid ∷ bids) s total results h =
      let there =
        count_page_ready b_n s (channel_of (page bid)) (size (page bid)) h (bounded bid) in
      let kept : IsCounted b_n (counted_page s (channel_of (page bid)) (size (page bid))) =
        counted_page-IsCounted b_n s (channel_of (page bid)) (size (page bid)) h in
      let bytes : total + size (page bid) + total_of (λ i. size (page i)) bids
          ≡ total + total_of (λ i. size (page i)) (bid ∷ bids) =
        omega arith in
      let done =
        after_all (λ t i. counted_page t (channel_of (page i)) (size (page i))) (bid ∷ bids) s in
      let read = results_of value (bid ∷ bids) results in
      let here = got bid in
      rw (gather, here, there)
        (gather_ready bids (counted_page s (channel_of (page bid)) (size (page bid)))
            (total + size (page bid)) (insert bid (value bid) results) kept
          ∙ ap (λ x. (done, ok (x, read))) bytes)
