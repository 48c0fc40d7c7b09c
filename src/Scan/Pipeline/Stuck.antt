-- ===== src/Scan/Pipeline/Stuck.antt =====
-- An interleaving after which the pipeline never ends.
use packrat.Prelude.{ℕ, suc, ◌+◌, ◌≡◌, refl, ap, true, false, List, [], ◌∷◌, ◌++◌, arith, length}
use packrat.Scan.Pipeline.{
  ready, reading, admitting, putting, ended, waiting, expired, working, exited, Pipeline, is_live,
  feeding, admits, repeat, started, Step, Reach,
}

-- One producer between two candidates, and one consumer that waits.
abbrev between : List ℕ → List ℕ → Pipeline
between remaining recorded = record {
  remaining = remaining;
  producers = ready ∷ [];
  read_q = [];
  consumers = waiting ∷ [];
  inflight = 0;
  result_q = [];
  recorded = recorded;
}

-- Both threads have ended, and an item stands in the queue.
abbrev abandoned : ℕ → List ℕ → Pipeline
abandoned c recorded = record {
  remaining = [];
  producers = ended ∷ [];
  read_q = (c, 0) ∷ [];
  consumers = exited ∷ [];
  inflight = 0;
  result_q = [];
  recorded = recorded;
}

-- No thread can act, and no result is left to record.
abbrev pub Dead : ℕ → ℕ → Pipeline → Type 0
Dead budget cap s = (t : Pipeline) → ¬ (Step budget cap s t)

alone : {A : Type 0} (p q : A) (before after : List A) → p ∷ [] ≡ before ++ q ∷ after → p ≡ q
alone p q [] after e = cc
alone p q (b ∷ []) after e = cc
alone p q (b ∷ d ∷ before) after e = cc

module _ (budget cap : ℕ) where
  abandoned-Dead : (c : ℕ) (recorded : List ℕ) → Dead budget cap (abandoned c recorded)
  abandoned-Dead c recorded t (Step.take before after d rest at e) = cc
  abandoned-Dead c recorded t (Step.finish before after at e) =
      let same = alone ended ready before after at in cc
  abandoned-Dead c recorded t (Step.read before after d m at small) =
      let same = alone ended (reading d) before after at in cc
  abandoned-Dead c recorded t (Step.read_error before after d at) =
      let same = alone ended (reading d) before after at in cc
  abandoned-Dead c recorded t (Step.acquire before after d m at admitted) =
      let same = alone ended (admitting d m) before after at in cc
  abandoned-Dead c recorded t (Step.put before after d m at) =
      let same = alone ended (putting d m) before after at in cc
  abandoned-Dead c recorded t (Step.get before after d m rest at e) =
      let same = alone exited waiting before after at in cc
  abandoned-Dead c recorded t (Step.expire before after at e) = cc
  abandoned-Dead c recorded t (Step.poll_again before after at live) =
      let same = alone exited expired before after at in cc
  abandoned-Dead c recorded t (Step.leave before after at over) =
      let same = alone exited expired before after at in cc
  abandoned-Dead c recorded t (Step.work before after d m at) =
      let same = alone exited (working d m) before after at in cc
  abandoned-Dead c recorded t (Step.record_result d rest e) = cc

  admits_first : admits budget 0 0 ≡ true
  unfolding admits
  admits_first = refl

  abbrev On : Pipeline → Pipeline → Type 0
  On s t = Reach budget cap s t

  -- One candidate goes through the pipeline.
  one_round :
      (s : Pipeline) (c : ℕ) (rest recorded : List ℕ)
      → On s (between (c ∷ rest) recorded)
      → On s (between rest (recorded ++ c ∷ []))
  one_round s c rest recorded r =
      let taken = Reach.and_then _ _ r (Step.take [] [] c rest refl refl) in
      let loaded = Reach.and_then _ _ taken (Step.read [] [] c 0 refl (omega arith)) in
      let admitted = Reach.and_then _ _ loaded (Step.acquire [] [] c 0 refl admits_first) in
      let queued = Reach.and_then _ _ admitted (Step.put [] [] c 0 refl) in
      let got = Reach.and_then _ _ queued (Step.get [] [] c 0 [] refl refl) in
      let worked = Reach.and_then _ _ got (Step.work [] [] c 0 refl) in
      Reach.and_then _ _ worked (Step.record_result c [] refl)

  -- The consumer's wait ends just before the last item is put, and it asks for live producers just
  -- after the producer has ended.
  last_round :
      (s : Pipeline) (c : ℕ) (recorded : List ℕ)
      → feeding (ended ∷ []) ≡ false
      → On s (between (c ∷ []) recorded)
      → On s (abandoned c recorded)
  last_round s c recorded over r =
      let taken = Reach.and_then _ _ r (Step.take [] [] c [] refl refl) in
      let loaded = Reach.and_then _ _ taken (Step.read [] [] c 0 refl (omega arith)) in
      let admitted = Reach.and_then _ _ loaded (Step.acquire [] [] c 0 refl admits_first) in
      let timed_out = Reach.and_then _ _ admitted (Step.expire [] [] refl refl) in
      let queued = Reach.and_then _ _ timed_out (Step.put [] [] c 0 refl) in
      let done = Reach.and_then _ _ queued (Step.finish [] [] refl refl) in
      Reach.and_then _ _ done (Step.leave [] [] refl over)

  none_feeding : feeding (ended ∷ []) ≡ false
  unfolding feeding is_live
  none_feeding = refl

  length-snoc : (xs : List ℕ) (c : ℕ) → length (xs ++ c ∷ []) ≡ suc (length xs)
  length-snoc [] c = refl
  length-snoc (x ∷ xs) c = ap suc (length-snoc xs c)

  all_rounds :
      (s : Pipeline) (c : ℕ) (rest recorded : List ℕ)
      → On s (between (c ∷ rest) recorded)
      → (t : Pipeline) × On s t
        × Dead budget cap t
        × (length t.recorded ≡ length recorded + length rest)
  all_rounds s c [] recorded r =
      (_, last_round s c recorded none_feeding r, abandoned-Dead c recorded, omega arith)
  all_rounds s c (d ∷ rest) recorded r =
      let (t, on, dead, number) =
        all_rounds s d rest (recorded ++ c ∷ []) (one_round s c (d ∷ rest) recorded r) in
      (t, on, dead, omega (arith, number, length-snoc recorded c))

  -- With one producer and one consumer, and whatever photos there are, at least one, some
  -- interleaving ends in a state in which no thread can act and all results but one are recorded: the
  -- consumer has left while the last item stood in the queue, and the loop that waits for one result
  -- per photo waits for ever.
  pub pipeline_stalls :
      (c : ℕ) (rest : List ℕ)
      → (s : Pipeline) × Reach budget cap (started 1 1 (c ∷ rest)) s
        × Dead budget cap s
        × (suc (length s.recorded) ≡ length (c ∷ rest))
  unfolding started repeat
  pipeline_stalls c rest =
      let (t, on, dead, number) = all_rounds (between (c ∷ rest) []) c rest [] Reach.here in
      (t, on, dead, omega (arith, number))
