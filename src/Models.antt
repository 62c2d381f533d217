-- ===== src/Models.antt =====
-- Model instances and the fallback between two of them: packages/core/src/ai/registry.ts, with the
-- types of packages/core/src/ai/types.ts. What builds a model from a target is a parameter; a
-- transport is a number, since two of them are only compared.
pub mod Cache
pub mod Fallback
mod Tests
use chatbot_integration.Prelude.{
  ℕ, Bool, true, false, ◌&&◌, List, [], ◌∷◌, ◌++◌, Option, none, some, if◌then◌else◌, ◌==◌, get_or,
  String,
}
use chatbot_integration.Text.{codes}

-- A text is the list of its code units. `secrets` stands for the name, the key and the headers.
pub record ProviderProfile : Type 0 where
  pub id : List ℕ
  pub base_url : List ℕ
  pub secrets : List ℕ
  pub revision : Option (List ℕ)
  pub fetch : ℕ

pub record SlotTarget : Type 0 where
  pub provider : ProviderProfile
  pub model : List ℕ

pub record SlotConfig : Type 0 where
  pub primary : Option SlotTarget
  pub fallback : Option SlotTarget

abbrev pub same_text : List ℕ → List ℕ → Bool
same_text [] [] = true
same_text (c ∷ s) (d ∷ t) = (c == d) && same_text s t
same_text _ _ = false

unfoldable pub cache_key : SlotTarget → List ℕ
cache_key target = target.provider.id ++ b':' ∷ (target.provider.base_url ++ b':' ∷ target.model)

abbrev pub revision_of : SlotTarget → List ℕ
revision_of target = get_or target.provider.revision []

-- An entry of the map of one transport.
pub record Entry (M : Type 0) : Type 0 where
  pub fetch : ℕ
  pub key : List ℕ
  pub revision : List ℕ
  pub instance_ : M

module _ {M : Type 0} (build : SlotTarget → M) where
  pub find_entry : (fetch : ℕ) (key : List ℕ) → List (Entry M) → Option (Entry M)
  find_entry fetch key [] = none
  find_entry fetch key (e ∷ cache) =
      let rest = find_entry fetch key cache in
      if (e.fetch == fetch) && same_text e.key key then some e else rest

  -- `models.set`: the entry of that key is replaced, or one is added.
  pub set_entry : Entry M → List (Entry M) → List (Entry M)
  set_entry new [] = new ∷ []
  set_entry new (e ∷ cache) =
      let rest = set_entry new cache in
      if (e.fetch == new.fetch) && same_text e.key new.key then new ∷ cache else e ∷ rest

  made : SlotTarget → List (Entry M) → List (Entry M) × M
  unfolding set_entry
  made target cache = (
    set_entry
        (record {
          fetch = target.provider.fetch;
          key = cache_key target;
          revision = revision_of target;
          instance_ = build target;
        })
        cache,
    build target,
  )

  kept_or_made : SlotTarget → List (Entry M) → Option (Entry M) → List (Entry M) × M
  unfolding made
  kept_or_made target cache none = made target cache
  kept_or_made target cache (some e) =
      if same_text e.revision (revision_of target) then (cache, e.instance_) else made target cache

  pub resolve_model : SlotTarget → List (Entry M) → List (Entry M) × M
  unfolding kept_or_made find_entry
  resolve_model target cache =
      kept_or_made target cache (find_entry target.provider.fetch (cache_key target) cache)

-- What `runWithFallback` answers.
pub data FallbackEnd (R E : Type 0) : Type 0 where
  answered : (result : R) (target : SlotTarget) (used_fallback : Bool) → FallbackEnd R E
  all_failed : (last_error : E) → FallbackEnd R E
  no_slot : FallbackEnd R E

-- How one execution ends.
pub data Execution (R E : Type 0) : Type 0 where
  succeeded : R → Execution R E
  broke : E → Execution R E

abbrev pub as_list : Option SlotTarget → (used_fallback : Bool) → List (SlotTarget × Bool)
as_list none used = []
as_list (some target) used = (target, used) ∷ []

pub targets_of : SlotConfig → List (SlotTarget × Bool)
targets_of slot = as_list slot.primary false ++ as_list slot.fallback true

module _ {W R E : Type 0} (execute : SlotTarget → W → W × Execution R E) where
  -- One turn of the loop; `k` is the rest of it.
  after_execution :
      SlotTarget × Bool → W × Execution R E → (W → E → W × FallbackEnd R E) → W × FallbackEnd R E
  after_execution (target, used) (w, succeeded result) k = (w, answered result target used)
  after_execution (target, used) (w, broke error) k = k w error

  pub try_targets : List (SlotTarget × Bool) → (last : Option E) → W → W × FallbackEnd R E
  unfolding after_execution
  try_targets [] none w = (w, no_slot)
  try_targets [] (some error) w = (w, all_failed error)
  try_targets (t ∷ ts) last w =
      after_execution t (execute t.0 w) (λ w' error. try_targets ts (some error) w')

  pub run_with_fallback : SlotConfig → W → W × FallbackEnd R E
  unfolding try_targets targets_of
  run_with_fallback slot w = try_targets (targets_of slot) none w
