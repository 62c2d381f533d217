-- ===== src/Models/Tests.antt =====
-- A provider whose key is rotated, and one that is down (packages/core/src/ai/registry.ts).
use chatbot_integration.Prelude.{
  if◌then◌else◌, ℕ, String, ◌≡◌, refl, true, List, [], ◌∷◌, ◌++◌, some, map,
}
use chatbot_integration.Text.{codes}
use chatbot_integration.Models.{
  SlotTarget, SlotConfig, Execution, succeeded, broke, answered, run_with_fallback, targets_of,
  try_targets, resolve_model, cache_key, find_entry, set_entry, same_text,
}
use chatbot_integration.Models.Cache.{Profiles, resolve_all, resolve_all_fresh}

abbrev profiles : Profiles
profiles id revision fetch = record {
  id = id;
  base_url = codes "http://x:1";
  secrets = codes "key " ++ revision;
  revision = some revision;
  fetch = fetch;
}

abbrev target : String → String → SlotTarget
target revision model = record {
  provider = profiles (codes "p") (codes revision) 0;
  model = codes model;
}

abbrev build : SlotTarget → List ℕ
build t = t.provider.secrets ++ t.model

abbrev asked : List SlotTarget
asked = target "1" "m" ∷ target "1" "m" ∷ target "2" "m" ∷ []

rotated :
    resolve_all build profiles asked [] ≡ codes "key 1m" ∷ codes "key 1m" ∷ codes "key 2m" ∷ []
unfolding resolve_all resolve_model cache_key find_entry set_entry
rotated = refl

resolve_all_fresh_example : resolve_all build profiles asked [] ≡ map build asked
resolve_all_fresh_example =
    resolve_all_fresh build profiles asked ((refl, refl), ((refl, refl), ((refl, refl), tt)))

-- The world lists the models that were asked; the first one is down.
abbrev execute : SlotTarget → List (List ℕ) → List (List ℕ) × Execution ℕ ℕ
execute t w = (t.model ∷ w, (if same_text t.model (codes "down") then broke 503 else succeeded 200))

abbrev slot : SlotConfig
slot = record { primary = some (target "1" "down"); fallback = some (target "1" "up") }

falls_back :
    run_with_fallback execute slot []
    ≡ (codes "up" ∷ codes "down" ∷ [], answered 200 (target "1" "up") true)
unfolding run_with_fallback targets_of try_targets
falls_back = refl
