-- ===== src/Provider/Losing.antt =====
-- person1_kv_engine/adapters/transformer_kv.py, `append_new_token`: what the recent window keeps of
-- the tokens of a layer.
use ai_ssd.Prelude.{
  ℕ, suc, ◌+◌, ◌-◌, ◌<◌, max, append-nil, append_assoc, length-append, ◌≡◌, refl, sym, ap, ◌∙◌,
  List, [], ◌∷◌, ◌++◌, map, arith, length, drop, some,
}
use ai_ssd.Prelude.Dict.{nat_key, lookup, insert, lookup-insert_self}
use ai_ssd.Provider.Picked.{length-map}
use ai_ssd.Provider.Backend.{KvBackend}
use ai_ssd.Provider.State.{LayerData, Provider, append_new_token}

-- the window of a layer behind new rows: each takes the place of the first row
unfoldable pub slide : {T : Type 0} → List T → List T → List T
slide recent [] = recent
slide recent (x ∷ xs) = slide (drop 1 recent ++ x ∷ []) xs

slide-drop :
    {T : Type 0} (recent xs : List T)
    → 0 < length recent
    → slide recent xs ≡ drop (length xs) (recent ++ xs)
unfolding slide
slide-drop [] xs some_rows = absurd (omega arith)
slide-drop (r ∷ recent) [] some_rows = sym (append-nil (r ∷ recent))
slide-drop (r ∷ recent) (x ∷ xs) some_rows =
    slide-drop (recent ++ x ∷ []) xs (omega (arith, length-append recent (x ∷ [])))
    ∙ ap (drop (length xs)) (append_assoc recent (x ∷ []) xs)

-- The window keeps its size, but for an empty one, which keeps one row.
slide_lem :
    {T : Type 0} (recent xs : List T) (x : T)
    → slide recent (x ∷ xs)
      ≡ drop (length recent + length (x ∷ xs) - max 1 (length recent)) (recent ++ x ∷ xs)
unfolding slide
slide_lem [] xs x =
    let count : length xs ≡ 0 + suc (length xs) - 1 = omega arith in
    slide-drop (x ∷ []) xs (omega arith) ∙ ap (λ n. drop n (x ∷ xs)) count
slide_lem (r ∷ recent) xs x =
    let n = suc (length recent) in
    let count : suc (length xs) ≡ n + suc (length xs) - max 1 n = omega arith in
    slide-drop (r ∷ recent) (x ∷ xs) (omega arith) ∙ ap (λ m. drop m ((r ∷ recent) ++ x ∷ xs)) count

module _ {T B : Type 0} (be : KvBackend B (List T)) where
  -- one call for each new token of a layer
  unfoldable pub append_tokens : ℕ → List (T × T) → Provider T B → Provider T B
  unfolding append_new_token
  append_tokens layer_idx [] p = p
  append_tokens layer_idx ((k, v) ∷ tokens) p =
      append_tokens layer_idx tokens (append_new_token be layer_idx k v p).0

  abbrev slid : LayerData T → List (T × T) → LayerData T
  slid ld tokens = record ld {
    recent_k = slide ld.recent_k (map (λ x. x.0) tokens);
    recent_v = slide ld.recent_v (map (λ x. x.1) tokens);
    total_tokens = ld.total_tokens + length tokens;
  }

  append_tokens-slid :
      (l : ℕ) (tokens : List (T × T)) (p : Provider T B) (ld : LayerData T)
      → lookup l p.layer_data ≡ some ld
      → (lookup l (append_tokens l tokens p).layer_data ≡ some (slid ld tokens))
        × ((append_tokens l tokens p).backend ≡ p.backend)
  unfolding append_tokens append_new_token slide
  append_tokens-slid l [] p ld there =
      (there ∙ ap (λ n. some (record ld { total_tokens = n })) (omega arith), refl)
  append_tokens-slid l ((k, v) ∷ tokens) p ld there =
      let ld1 : LayerData T = record ld {
        recent_k = drop 1 ld.recent_k ++ k ∷ [];
        recent_v = drop 1 ld.recent_v ++ v ∷ [];
        total_tokens = ld.total_tokens + 1;
      } in
      let p1 = record p { layer_data = insert l ld1 p.layer_data } in
      let (found, kept) =
        append_tokens-slid l tokens p1 ld1 (lookup-insert_self l ld1 p.layer_data) in
      let count : ld.total_tokens + 1 + length tokens ≡ ld.total_tokens + suc (length tokens) =
        omega arith in
      rw (append_tokens, append_new_token, there)
        (found ∙ ap (λ n. some (record (slid ld1 tokens) { total_tokens = n })) count, kept)

  -- New tokens push old ones out: where the window of a layer has as many keys as values, behind
  -- one or more new tokens the window holds the last ones of the old window and the new tokens,
  -- as many as before (one where it was empty). The tokens that are pushed out are written
  -- nowhere: the backend, the sink and the candidates stay, while the total counts every token.
  pub append_tokens_loses :
      (l : ℕ) (k v : T) (tokens : List (T × T)) (p : Provider T B) (ld : LayerData T)
      → lookup l p.layer_data ≡ some ld
      → length ld.recent_k ≡ length ld.recent_v
      → let keys = ld.recent_k ++ k ∷ map (λ x. x.0) tokens in
        let values = ld.recent_v ++ v ∷ map (λ x. x.1) tokens in
        let gone = length ld.recent_k + suc (length tokens) - max 1 (length ld.recent_k) in
        (lookup l (append_tokens l ((k, v) ∷ tokens) p).layer_data
          ≡ some (record ld {
            recent_k = drop gone keys;
            recent_v = drop gone values;
            total_tokens = ld.total_tokens + suc (length tokens);
          }))
        × ((append_tokens l ((k, v) ∷ tokens) p).backend ≡ p.backend)
  append_tokens_loses l k v tokens p ld there even =
      let (found, kept) = append_tokens-slid l ((k, v) ∷ tokens) p ld there in
      let n = length ld.recent_k in
      let ks = map (λ x. x.0) tokens in
      let vs = map (λ x. x.1) tokens in
      let key_rows : slide ld.recent_k (k ∷ ks)
          ≡ drop (n + suc (length tokens) - max 1 n) (ld.recent_k ++ k ∷ ks) =
        slide_lem ld.recent_k ks k
        ∙ ap (λ m. drop (n + suc m - max 1 n) (ld.recent_k ++ k ∷ ks))
            (length-map (λ x. x.0) tokens) in
      let value_rows : slide ld.recent_v (v ∷ vs)
          ≡ drop (n + suc (length tokens) - max 1 n) (ld.recent_v ++ v ∷ vs) =
        slide_lem ld.recent_v vs v
        ∙ ap
            (λ m.
              drop (length ld.recent_v + suc m - max 1 (length ld.recent_v))
                (ld.recent_v ++ v ∷ vs))
            (length-map (λ x. x.1) tokens)
        ∙ ap (λ m. drop (m + suc (length tokens) - max 1 m) (ld.recent_v ++ v ∷ vs)) (sym even) in
      (
        found ∙ (λ i. some (record ld {
          recent_k = key_rows i;
          recent_v = value_rows i;
          total_tokens = ld.total_tokens + suc (length tokens);
        })),
        kept,
      )
