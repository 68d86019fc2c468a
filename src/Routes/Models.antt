-- ===== src/Routes/Models.antt =====
-- internal/server/models.go: the models that are listed.
use smolllm_server.Base.{
  ℕ, ◌≡◌, refl, ap, List, [], ◌∷◌, map, Text, text_less, Perm, Ascending, sort_slice,
  sort_slice-perm, sort_slice-Ascending, by-IsOrder,
}
use smolllm_server.Config.{Config}
use smolllm_server.Routes.{ModelInfo, model_info, names, list_models}

ids-model_info :
    (now : ℕ) (l : List Text) → map (λ (i : ModelInfo). i.id) (map (model_info now) l) ≡ l
ids-model_info now [] = refl
ids-model_info now (n ∷ l) = ap (◌∷◌ n) (ids-model_info now l)

-- The models listed are the names of the aliases of the configuration, each as often as there, in
-- ascending order.
pub list_models-names :
    (now : ℕ) (c : Config)
    → let ids = map (λ (i : ModelInfo). i.id) (list_models now c) in
      Perm ids (names c.aliases) × Ascending text_less ids
unfolding list_models
list_models-names now c = rw (ids-model_info now (sort_slice text_less (names c.aliases))) (
  sort_slice-perm text_less (names c.aliases),
  sort_slice-Ascending text_less (by-IsOrder (λ (t : Text). t)) (names c.aliases),
)
