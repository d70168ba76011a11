-- ===== src/Tests/Providing.antt =====
-- Concrete runs of the state providers, over a backend in memory whose rows are numbers.
use ai_ssd.Prelude.{
  ℕ_discrete, ℕ, ◌+◌, ◌*◌, ◌≡◌, ◌↔◌, ◌<◌, ◌≤◌, refl, Bool, true, false, none, some, ok, List, [],
  ◌∷◌, Among, arith, ltb,
}
use ai_ssd.Prelude.Dict.{Dict, nat_key, lookup}
use ai_ssd.Prefetch.Ordered.{IsDistinct}
use ai_ssd.Provider.Backend.{KvBackend, IsSound}
use ai_ssd.Provider.State.{LayerData, Provider, init_from_prefill}
use ai_ssd.Provider.Picked.{Picked}
use ai_ssd.Provider.Laid.{IsLaid}
use ai_ssd.Provider.RoundTrip.{Gives}
use ai_ssd.Provider.Session.{selects, prefill-selects_picks, prefill-selects_all}
use ai_ssd.Provider.Window.{effective, select_in_window}
use ai_ssd.Provider.Windowed.{Among-effective, select_in_window-keeps, select_in_window_all}
use ai_ssd.Provider.Losing.{append_tokens, append_tokens_loses}
use ai_ssd.Tests.Adapting.{gather, gather_lem, put, put_self, put_ne}

abbrev Rows : Type 0
Rows = List ℕ

abbrev Store : Type 0
Store = ℕ → ℕ → Rows × Rows

abbrev store : KvBackend Store Rows
store = record {
  write_block = λ s l b k v. put s l b (k, v);
  read_key_page_batch = λ s l bids. (s, gather (λ b. (s l b).0) bids);
  read_value_page_batch = λ s l bids. (s, gather (λ b. (s l b).1) bids);
  predict_and_prefetch = λ s l bids. (s, none);
}

abbrev store-IsSound : IsSound store
store-IsSound = record {
  held = λ s. s;
  Fresh = λ s. Unit;
  Ready = λ s. Unit;
  ready = λ s h. tt;
  written = λ s l i k v h. put_self s l i (k, v);
  written_ne = λ s l i m j k v h ne. put_ne s l i m j (k, v) ne;
  stays_fresh = λ s l i k v h. tt;
  keys = record {
    values = λ s l bids h. gather_lem (λ b. (s l b).0) bids;
    keeps = λ s l bids m i h. refl;
    stays = λ s l bids h. tt;
  };
  values = record {
    values = λ s l bids h. gather_lem (λ b. (s l b).1) bids;
    keeps = λ s l bids m i h. refl;
    stays = λ s l bids h. tt;
  };
  predict_quiet = λ s l bids h. refl;
  predict_keeps = λ s l bids m i h. refl;
  predict_stays = λ s l bids h. tt;
}

abbrev higher : ℕ → ℕ → Bool
higher a b = ltb b a

-- the first row of a block, times the query
abbrev first_row : ℕ → Rows → ℕ → ℕ
first_row q [] n = 0
first_row q (r ∷ rows) n = q * r

abbrev empty_store : Store
empty_store l b = ([], [])

-- blocks of two tokens, one token in the sink and two in the window
abbrev provider : (ℕ → ℕ) → Provider ℕ Store
provider quota = record {
  backend = empty_store;
  sink_tokens = 1;
  recent_tokens = 2;
  tokens_per_block = 2;
  quota = quota;
  enable_prefetch = true;
  page_bytes = 64;
  blank = 0;
  layer_data = [];
  candidate_k_bytes_to_host = 0;
  winning_v_bytes_to_host = 0;
  is_active = false;
}

abbrev keys : Rows
keys = 1 ∷ 2 ∷ 3 ∷ 4 ∷ 5 ∷ 6 ∷ 7 ∷ []

abbrev values : Rows
values = 11 ∷ 12 ∷ 13 ∷ 14 ∷ 15 ∷ 16 ∷ 17 ∷ []

-- a short layer, and one of two full blocks
abbrev prompt : Dict ℕ (Rows × Rows)
prompt = (0, (1 ∷ 2 ∷ [], 3 ∷ 4 ∷ [])) ∷ (3, (keys, values)) ∷ []

prompt-IsDistinct : IsDistinct prompt
unfolding IsDistinct lookup ℕ_discrete
prompt-IsDistinct = (refl, (refl, tt))

abbrev filled : (ℕ → ℕ) → Provider ℕ Store
filled quota = (init_from_prefill store prompt (provider quota)).0

-- two selections before the one that is looked at
abbrev queries : List (ℕ × ℕ)
queries = (0, 5) ∷ (3, 1) ∷ []

prefill-selects_picks_example :
    ((init_from_prefill store prompt (provider (λ n. 1))).1 ≡ none)
    × ((r : Rows × Rows) × Gives store store-IsSound higher first_row
          (selects store higher first_row queries (filled (λ n. 1)))
          3
          5
          r
        × Picked r.0 r.1 keys values)
unfolding lookup ℕ_discrete
prefill-selects_picks_example =
    prefill-selects_picks store store-IsSound higher first_row prompt (provider (λ n. 1))
      (omega arith) (omega arith) prompt-IsDistinct (refl, (refl, tt)) tt 3 keys values refl 5
      queries

prefill-selects_all_example :
    ((init_from_prefill store prompt (provider (λ n. n))).1 ≡ none)
    × Gives store store-IsSound higher first_row
        (selects store higher first_row queries (filled (λ n. n)))
        3
        5
        (keys, values)
unfolding lookup ℕ_discrete
prefill-selects_all_example =
    prefill-selects_all store store-IsSound higher first_row prompt (provider (λ n. n))
      (omega arith) (omega arith) prompt-IsDistinct (refl, (refl, tt)) tt 3 keys values refl 5
      queries (λ n. omega arith)

-- two blocks of two tokens behind a sink of one
abbrev loaded : Store
loaded l b = ((10 * b + 2) ∷ (10 * b + 3) ∷ [], (10 * b + 4) ∷ (10 * b + 5) ∷ [])

abbrev layer : LayerData ℕ
layer = record {
  sink_k = 1 ∷ [];
  sink_v = 11 ∷ [];
  recent_k = 6 ∷ 7 ∷ [];
  recent_v = 16 ∷ 17 ∷ [];
  candidate_blocks = (0, 2) ∷ (1, 2) ∷ [];
  total_tokens = 7;
}

abbrev loaded_provider : Provider ℕ Store
loaded_provider = record (provider (λ n. n)) {
  backend = loaded;
  layer_data = (3, layer) ∷ [];
  is_active = true;
}

layer-IsLaid :
    IsLaid (1 ∷ 2 ∷ 3 ∷ 12 ∷ 13 ∷ 6 ∷ 7 ∷ []) (11 ∷ 4 ∷ 5 ∷ 14 ∷ 15 ∷ 16 ∷ 17 ∷ []) (loaded 3) layer
layer-IsLaid = record {
  ascending = (omega arith, (omega arith, tt));
  keys = refl;
  values = refl;
  even = (refl, (refl, tt));
  sinks = refl;
  recents = refl;
}

-- A window of four tokens reaches into the second block only.
Among-effective_example :
    Among {A = ℕ × ℕ} (1, 2) (effective store higher first_row 4 loaded_provider layer) ↔ (
      Among {A = ℕ × ℕ} (1, 2) ((0, 2) ∷ (1, 2) ∷ [])
      × ((t : ℕ) × (1 + 1 * 2 ≤ t) × (t < 1 + 1 * 2 + 2) × (7 ≤ t + 4)))
Among-effective_example =
    Among-effective store higher first_row 4 loaded_provider layer 1 2 (omega arith) (omega arith)

select_in_window-keeps_example :
    lookup 3 (select_in_window store higher first_row 4 3 (some 5) loaded_provider).0.layer_data
    ≡ some layer
unfolding lookup ℕ_discrete
select_in_window-keeps_example =
    select_in_window-keeps store higher first_row 4 3 (some 5) loaded_provider 3

select_in_window_all_example :
    (select_in_window store higher first_row 4 3 (some 5) loaded_provider).1
    ≡ ok (1 ∷ 12 ∷ 13 ∷ 6 ∷ 7 ∷ [], 11 ∷ 14 ∷ 15 ∷ 16 ∷ 17 ∷ [])
unfolding effective lookup ℕ_discrete
select_in_window_all_example =
    select_in_window_all store higher first_row store-IsSound 4 3 5 loaded_provider layer _ _ tt
      refl layer-IsLaid (λ n. omega arith)

-- Three new tokens: the two of the window and the first new one are gone.
append_tokens_loses_example :
    (lookup 3 (append_tokens store 3 ((8, 18) ∷ (9, 19) ∷ (10, 20) ∷ []) loaded_provider).layer_data
      ≡ some (record layer { recent_k = 9 ∷ 10 ∷ []; recent_v = 19 ∷ 20 ∷ []; total_tokens = 10 }))
    × ((append_tokens store 3 ((8, 18) ∷ (9, 19) ∷ (10, 20) ∷ []) loaded_provider).backend ≡ loaded)
unfolding lookup ℕ_discrete
append_tokens_loses_example =
    append_tokens_loses store 3 8 18 ((9, 19) ∷ (10, 20) ∷ []) loaded_provider layer refl refl
