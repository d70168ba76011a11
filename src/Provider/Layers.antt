-- ===== src/Provider/Layers.antt =====
-- person1_kv_engine/adapters/transformer_kv.py: a prefill lays out every layer of the prompt.
use mathlib.Core.Path.{subst}
use ai_ssd.Prelude.{
  ℕ, ◌<◌, ◌≡◌, refl, sym, ap, ◌∙◌, fun_ext, List, [], ◌∷◌, All, length, Option, none, some,
  ℕ_discrete,
}
use ai_ssd.Prelude.Dict.{
  Dict, nat_key, lookup, insert, lookup-cons_ne, lookup-cons_self, lookup-insert_self,
  lookup-insert_ne,
}
use ai_ssd.Prefetch.Ordered.{IsDistinct}
use ai_ssd.Provider.Backend.{KvBackend, IsSound}
use ai_ssd.Provider.State.{LayerData, Provider, init_from_prefill, init_layer, init_layers}
use ai_ssd.Provider.Laid.{IsLaid, LaysOut, init_layer-Placed}

module _ {T B : Type 0} (be : KvBackend B (List T)) (sound : IsSound be) where
  open sound use {held, Fresh}

  -- what a prefill leaves: every layer is laid out
  pub record Prefilled (layers : Dict ℕ (List T × List T)) (before after : Provider T B)
      : Type 0 where
    pub fresh : Fresh after.backend
    pub layer :
        (l : ℕ) (ks vs : List T)
        → lookup l layers ≡ some (ks, vs)
        → (ld : LayerData T) × (lookup l after.layer_data ≡ some ld)
          × IsLaid ks vs (held after.backend l) ld
    pub others :
        (l : ℕ)
        → lookup l layers ≡ none
        → (lookup l after.layer_data ≡ lookup l before.layer_data)
          × (held after.backend l ≡ held before.backend l)
    pub quota : after.quota ≡ before.quota

  Prefilled-cons :
      (l : ℕ) (ks vs : List T) (layers : Dict ℕ (List T × List T)) (p : Provider T B) (b : B)
      (ld : LayerData T) (after : Provider T B)
      → lookup l layers ≡ none
      → LaysOut be sound l ks vs p.backend b ld
      → Prefilled layers (record p { backend = b; layer_data = insert l ld p.layer_data }) after
      → Prefilled ((l, (ks, vs)) ∷ layers) p after
  Prefilled-cons l ks vs layers p b ld after new step rest = record {
    fresh = rest.fresh;
    layer = λ m xs ys h. elim (ℕ_discrete l m) [
      | yes eq ↦
          subst
            (λ n.
              lookup n ((l, (ks, vs)) ∷ layers) ≡ some (xs, ys)
              → (x : LayerData T) × (lookup n after.layer_data ≡ some x)
                × IsLaid xs ys (held after.backend n) x)
            eq (first xs ys) h
      | no ne ↦ rest.layer m xs ys (sym (lookup-cons_ne l m (ks, vs) layers ne) ∙ h)
    ];
    others = λ m h. elim (ℕ_discrete l m) [
      | yes eq ↦ absurd (taken m eq h)
      | no ne ↦
          let (data_same, held_same) =
            rest.others m (sym (lookup-cons_ne l m (ks, vs) layers ne) ∙ h) in
          (
            data_same ∙ lookup-insert_ne l m ld p.layer_data ne,
            held_same ∙ fun_ext (λ i. step.apart m i ne),
          )
    ];
    quota = rest.quota;
  }
    where
      found : lookup l ((l, (ks, vs)) ∷ layers) ≡ some (ks, vs)
      found = lookup-cons_self l (ks, vs) layers

      taken : (m : ℕ) → l ≡ m → lookup m ((l, (ks, vs)) ∷ layers) ≡ none → ⊥
      taken m eq h =
          let q : ◌≡◌ {A = Option (List T × List T)} (some (ks, vs)) none =
            sym found ∙ ap (λ n. lookup n ((l, (ks, vs)) ∷ layers)) eq ∙ h in
          cc

      first :
          (xs ys : List T)
          → lookup l ((l, (ks, vs)) ∷ layers) ≡ some (xs, ys)
          → (x : LayerData T) × (lookup l after.layer_data ≡ some x)
            × IsLaid xs ys (held after.backend l) x
      first xs ys h =
          let q : ◌≡◌ {A = Option (List T × List T)} (some (ks, vs)) (some (xs, ys)) =
            sym found ∙ h in
          let kx : ks ≡ xs = cc in
          let vy : vs ≡ ys = cc in
          let (data_same, held_same) = rest.others l new in
          (
            ld,
            data_same ∙ lookup-insert_self l ld p.layer_data,
            subst (λ zs. IsLaid zs ys (held after.backend l) ld) kx
                (subst (λ zs. IsLaid ks zs (held after.backend l) ld) vy
                  (subst (λ f. IsLaid ks vs f ld) (sym held_same) step.laid)),
          )

  init_layers-Prefilled :
      (layers : Dict ℕ (List T × List T)) (p : Provider T B)
      → 0 < p.tokens_per_block
      → 0 < p.recent_tokens
      → IsDistinct layers
      → All (λ x. length x.1.0 ≡ length x.1.1) layers
      → Fresh p.backend
      → ((init_layers be layers p).1 ≡ none) × Prefilled layers p (init_layers be layers p).0
  unfolding init_layers IsDistinct lookup
  init_layers-Prefilled [] p size recent distinct same fresh = (
    refl,
    record { fresh = fresh; layer = λ l ks vs h. cc; others = λ l h. (refl, refl); quota = refl },
  )
  init_layers-Prefilled ((l, (ks, vs)) ∷ layers) p size recent distinct same fresh =
      let (ld, eq, step) = init_layer-Placed be sound p l ks vs same.0 fresh size recent in
      let p1 = record p {
        backend = (init_layer be p l ks vs).0;
        layer_data = insert l ld p.layer_data;
      } in
      let (quiet, rest) =
        init_layers-Prefilled layers p1 size recent distinct.1 same.1 step.fresh in
      rw (init_layers, eq) (quiet, Prefilled-cons l ks vs layers p _ ld _ distinct.0 step rest)

  -- A prefill that has a layer does not raise.
  pub init_from_prefill-Prefilled :
      (layers : Dict ℕ (List T × List T)) (p : Provider T B) (l : ℕ) (x : List T × List T)
      → lookup l layers ≡ some x
      → 0 < p.tokens_per_block
      → 0 < p.recent_tokens
      → IsDistinct layers
      → All (λ x. length x.1.0 ≡ length x.1.1) layers
      → Fresh p.backend
      → ((init_from_prefill be layers p).1 ≡ none)
        × Prefilled layers p (init_from_prefill be layers p).0
  unfolding init_from_prefill lookup
  init_from_prefill-Prefilled [] p l x there size recent distinct same fresh = absurd (cc)
  init_from_prefill-Prefilled (layer ∷ layers) p l x there size recent distinct same fresh =
      init_layers-Prefilled (layer ∷ layers) p size recent distinct same fresh
