-- ===== src/Provider/Laid.antt =====
-- person1_kv_engine/adapters/transformer_kv.py: a prefill lays out a layer of the sequence, the sink
-- and the recent window in memory and the history in the storage.
use mathlib.Core.Path.{subst}
use ai_ssd.Prelude.{
  ℕ, ◌+◌, ◌-◌, ◌<◌, ◌≡◌, ◌≢◌, inl, inr, refl, sym, ap, ◌∙◌, List, [], ◌++◌, All, arith, length,
  take, drop, take-drop, take-split, length-take, length-drop, append_assoc, append-nil, leb, ◌==◌,
  true, false, Bool-cases, Result, ok,
}
use ai_ssd.Prelude.Dict.{nat_key}
use ai_ssd.Provider.Backend.{KvBackend, IsSound}
use ai_ssd.Provider.State.{LayerData, Provider, last_rows, rows_between, offload, init_layer}
use ai_ssd.Provider.Cutting.{Ascending, rows_held, offload_lem}

module _ {T : Type 0} where
  -- `block` gives the rows of keys and of values of each block; the layer has the keys `ks` and the
  -- values `vs` in the sink, the blocks and the recent window
  pub record IsLaid (ks vs : List T) (block : ℕ → List T × List T) (ld : LayerData T) : Type 0 where
    pub ascending : Ascending 0 ld.candidate_blocks
    pub keys : ld.sink_k ++ (rows_held (λ i. (block i).0) ld.candidate_blocks ++ ld.recent_k) ≡ ks
    pub values : ld.sink_v ++ (rows_held (λ i. (block i).1) ld.candidate_blocks ++ ld.recent_v) ≡ vs
    pub even :
        All
          (λ c. length (take c.1 (block c.0).0) ≡ length (take c.1 (block c.0).1))
          ld.candidate_blocks
    pub sinks : length ld.sink_k ≡ length ld.sink_v
    pub recents : length ld.recent_k ≡ length ld.recent_v

  -- A sequence is its sink, its history and its recent window.
  parts-eq :
      (sink recent : ℕ) (xs hist : List T)
      → 0 < recent
      → sink + recent < length xs
      → hist ≡ rows_between sink (length xs - recent) xs
      → take sink xs ++ (hist ++ last_rows recent xs) ≡ xs
  unfolding last_rows
  parts-eq sink recent xs hist pos long same =
      let n = length xs - recent in
      let not_zero : (recent == 0) ≡ false = ground arith in
      let window : last_rows recent xs ≡ drop n xs = rw (last_rows, not_zero) refl in
      let whole : sink + (n - sink) ≡ n = omega arith in
      (λ i. take sink xs ++ (same i ++ window i))
      ∙ sym (append_assoc (take sink xs) (rows_between sink n xs) (drop n xs))
      ∙ ap (λ ys. ys ++ drop n xs) (take-split sink (n - sink) xs ∙ ap (λ m. take m xs) whole)
      ∙ take-drop n xs

  length-last_rows :
      (n : ℕ) (xs ys : List T)
      → length xs ≡ length ys
      → length (last_rows n xs) ≡ length (last_rows n ys)
  unfolding last_rows
  length-last_rows n xs ys same = elim (Bool-cases (n == 0)) [
    | inl zero_rows ↦ rw (last_rows, zero_rows) same
    | inr some_rows ↦
        rw (last_rows, some_rows)
          (omega (arith, same, length-drop (length xs - n) xs, length-drop (length ys - n) ys))
  ]

module _ {T B : Type 0} (be : KvBackend B (List T)) (sound : IsSound be) where
  open sound use {held, Fresh}

  -- what a step of the prefill leaves for a layer, and what it leaves alone
  pub record LaysOut (l : ℕ) (ks vs : List T) (before after : B) (ld : LayerData T) : Type 0 where
    pub fresh : Fresh after
    pub laid : IsLaid ks vs (held after l) ld
    pub apart : (m i : ℕ) → l ≢ m → held after m i ≡ held before m i

  -- the outcome of the body of the loop for a layer
  abbrev pub Placed : ℕ → List T → List T → B → B × Result (LayerData T) → Type 0
  Placed l ks vs before r = (ld : LayerData T) × (r.1 ≡ ok ld) × LaysOut l ks vs before r.0 ld

  module _ (p : Provider T B) (l : ℕ) (ks vs : List T) (same : length ks ≡ length vs)
      (fresh : Fresh p.backend) where
    -- A short sequence stays in memory.
    short-Placed :
        leb (length ks) (p.sink_tokens + p.recent_tokens) ≡ true
        → Placed l ks vs p.backend (init_layer be p l ks vs)
    unfolding init_layer
    short-Placed short =
        let ld : LayerData T = record {
          sink_k = ks;
          sink_v = vs;
          recent_k = [];
          recent_v = [];
          candidate_blocks = [];
          total_tokens = length ks;
        } in
        let eq : init_layer be p l ks vs ≡ (p.backend, ok ld) = rw (init_layer, short) refl in
        subst (Placed l ks vs p.backend) (sym eq) (
          ld,
          refl,
          record {
            fresh = fresh;
            laid = record {
              ascending = tt;
              keys = append-nil ks;
              values = append-nil vs;
              even = tt;
              sinks = same;
              recents = refl;
            };
            apart = λ m i ne. refl;
          },
        )

    long-Placed :
        0 < p.tokens_per_block
        → 0 < p.recent_tokens
        → leb (length ks) (p.sink_tokens + p.recent_tokens) ≡ false
        → Placed l ks vs p.backend (init_layer be p l ks vs)
    unfolding init_layer
    long-Placed size recent long =
        let from = p.sink_tokens in
        let to = length ks - p.recent_tokens in
        let hk = rows_between from to ks in
        let hv = rows_between from to vs in
        let longer : from + p.recent_tokens < length ks = ground arith in
        let sized : (p.tokens_per_block == 0) ≡ false = ground arith in
        let lk : length hk ≡ to - from =
          omega (arith, length-take (to - from) (drop from ks), length-drop from ks) in
        let lv : length hv ≡ to - from =
          omega (arith, same, length-take (to - from) (drop from vs), length-drop from vs) in
        let off = offload be (length hk) p.tokens_per_block p.blank l 0 hk hv p.backend in
        let done =
          offload_lem be sound (length hk) p.tokens_per_block p.blank l 0 hk hv p.backend size
            (omega arith) (lk ∙ sym lv) fresh in
        let ld : LayerData T = record {
          sink_k = take from ks;
          sink_v = take from vs;
          recent_k = last_rows p.recent_tokens ks;
          recent_v = last_rows p.recent_tokens vs;
          candidate_blocks = off.1;
          total_tokens = length ks;
        } in
        let eq : init_layer be p l ks vs ≡ (off.0, ok ld) = rw (init_layer, long, sized) refl in
        let hv-eq : hv ≡ rows_between from (length vs - p.recent_tokens) vs =
          ap (λ n. rows_between from (n - p.recent_tokens) vs) same in
        subst (Placed l ks vs p.backend) (sym eq) (
          ld,
          refl,
          record {
            fresh = done.fresh;
            laid = record {
              ascending = done.ascending;
              keys = parts-eq from p.recent_tokens ks _ recent longer done.keys;
              values =
                  parts-eq from p.recent_tokens vs _ recent (omega arith) (done.values ∙ hv-eq);
              even = done.even;
              sinks = omega (arith, length-take from ks, length-take from vs);
              recents = length-last_rows p.recent_tokens ks vs same;
            };
            apart = λ m i ne. done.apart m i (inl ne);
          },
        )

    pub init_layer-Placed :
        0 < p.tokens_per_block
        → 0 < p.recent_tokens
        → Placed l ks vs p.backend (init_layer be p l ks vs)
    init_layer-Placed size recent =
        elim (Bool-cases (leb (length ks) (p.sink_tokens + p.recent_tokens))) [
          | inl short ↦ short-Placed short
          | inr long ↦ long-Placed size recent long
        ]
