-- ===== src/Models/Cache.antt =====
-- The cache of model instances is never seen: packages/core/src/ai/registry.ts.
use chatbot_integration.Prelude.{
  cut_left, ℕ, ◌≡◌, refl, ap, sym, ◌∙◌, subst, Bool, true, false, ◌&&◌, List, [], ◌∷◌, ◌++◌, Option,
  none, some, arith, inl, inr, any, map, All, ◌==◌, Bool-cases, drop, get_or,
}
use chatbot_integration.Models.{
  ProviderProfile, SlotTarget, Entry, cache_key, revision_of, same_text, find_entry, set_entry,
  resolve_model, kept_or_made, made,
}

same_text-≡ : (s t : List ℕ) → same_text s t ≡ true → s ≡ t
same_text-≡ [] [] h = refl
same_text-≡ [] (d ∷ t) h = cc
same_text-≡ (c ∷ s) [] h = cc
same_text-≡ (c ∷ s) (d ∷ t) h =
    let same : c ≡ d = ground arith in
    let rest : same_text s t ≡ true = ground arith in rw (same, same_text-≡ s t rest) refl

abbrev pub has_colon : List ℕ → Bool
has_colon s = any (◌==◌ b':') s

first : List ℕ → ℕ
first [] = 0
first (c ∷ s) = c

key_parts :
    (a b x y : List ℕ)
    → has_colon a ≡ false
    → has_colon b ≡ false
    → a ++ b':' ∷ x ≡ b ++ b':' ∷ y
    → (a ≡ b) × (x ≡ y)
unfolding first
key_parts [] [] x y ha hb e = (refl, ap (drop 1) e)
key_parts [] (d ∷ b) x y ha hb e = let same : b':' ≡ d = ap first e in absurd (ground arith)
key_parts (c ∷ a) [] x y ha hb e = let same : c ≡ b':' = ap first e in absurd (ground arith)
key_parts (c ∷ a) (d ∷ b) x y ha hb e =
    let same : c ≡ d = ap first e in
    let fine : has_colon a ≡ false = ground arith in
    let fine' : has_colon b ≡ false = ground arith in
    let (rest, later) = key_parts a b x y fine fine' (ap (drop 1) e) in
    (rw (same, rest) refl, later)

-- The profiles that the targets are loaded from: what a provider is, by its id, its revision and
-- its transport, since a revision changes whenever the provider's key, headers or address do.
abbrev pub Profiles : Type 0
Profiles = (id revision : List ℕ) (fetch : ℕ) → ProviderProfile

-- A target that was loaded from the profiles; ids hold no colon.
abbrev pub IsLoaded : Profiles → SlotTarget → Type 0
IsLoaded profiles t =
    (t.provider ≡ profiles t.provider.id (revision_of t) t.provider.fetch)
    × (has_colon t.provider.id ≡ false)

-- Two loaded targets with one key, revision and transport are the same.
loaded-≡ :
    (profiles : Profiles) (s t : SlotTarget)
    → IsLoaded profiles s
    → IsLoaded profiles t
    → cache_key s ≡ cache_key t
    → revision_of s ≡ revision_of t
    → s.provider.fetch ≡ t.provider.fetch
    → s ≡ t
unfolding cache_key
loaded-≡ profiles s t (from_s, clear_s) (from_t, clear_t) key revision fetch =
    let (id, rest) = key_parts s.provider.id t.provider.id _ _ clear_s clear_t key in
    let same : s.provider ≡ t.provider = from_s ∙ rw (id, revision, fetch) (sym from_t) in
    let models =
      cut_left t.provider.base_url (b':' ∷ s.model) (b':' ∷ t.model)
        (ap (λ (p : ProviderProfile). p.base_url ++ b':' ∷ s.model) (sym same) ∙ rest) in
    λ i. record { provider = same i; model = ap (drop 1) models i }

module _ {M : Type 0} (build : SlotTarget → M) (profiles : Profiles) where
  -- An entry that was made for a loaded target.
  abbrev pub IsSound : Entry M → Type 0
  IsSound e =
      (t : SlotTarget) × IsLoaded profiles t
      × (e.fetch ≡ t.provider.fetch)
      × (e.key ≡ cache_key t)
      × (e.revision ≡ revision_of t)
      × (e.instance_ ≡ build t)

  set_entry-IsSound :
      (new : Entry M) (cache : List (Entry M))
      → IsSound new
      → All IsSound cache
      → All IsSound (set_entry build new cache)
  unfolding set_entry
  set_entry-IsSound new [] h all_sound = (h, tt)
  set_entry-IsSound new (e ∷ cache) h (sound, others) =
      elim (Bool-cases ((e.fetch == new.fetch) && same_text e.key new.key)) [
        | inl same ↦ rw same (h, others)
        | inr other ↦ rw other (sound, set_entry-IsSound new cache h others)
      ]

  made-IsSound :
      (t : SlotTarget) (cache : List (Entry M))
      → IsLoaded profiles t
      → All IsSound cache
      → All IsSound (made build t cache).0 × ((made build t cache).1 ≡ build t)
  unfolding made
  made-IsSound t cache loaded sound =
      (set_entry-IsSound _ cache (t, loaded, refl, refl, refl, refl) sound, refl)

  -- What a lookup finds was made for that transport and that key.
  find_entry-IsSound :
      (fetch : ℕ) (key : List ℕ) (cache : List (Entry M)) (e : Entry M)
      → All IsSound cache
      → find_entry build fetch key cache ≡ some e
      → IsSound e × (e.fetch ≡ fetch) × (e.key ≡ key)
  unfolding find_entry
  find_entry-IsSound fetch key [] e sound h = cc
  find_entry-IsSound fetch key (x ∷ cache) e (sound, others) h =
      elim (Bool-cases ((x.fetch == fetch) && same_text x.key key)) [
        | inl same ↦
            let one : x ≡ e = ap (λ o. get_or o x) (rw same at h) in
            let at_fetch : x.fetch ≡ fetch = ground arith in
            let text_same : same_text x.key key ≡ true = ground arith in
            subst (λ y. IsSound y × (y.fetch ≡ fetch) × (y.key ≡ key)) one
              (sound, at_fetch, same_text-≡ x.key key text_same)
        | inr other ↦ find_entry-IsSound fetch key cache e others (rw other at h)
      ]

  kept_or_made-IsSound :
      (t : SlotTarget) (cache : List (Entry M)) (found : Option (Entry M))
      → IsLoaded profiles t
      → All IsSound cache
      → find_entry build t.provider.fetch (cache_key t) cache ≡ found
      → All IsSound (kept_or_made build t cache found).0
        × ((kept_or_made build t cache found).1 ≡ build t)
  unfolding kept_or_made
  kept_or_made-IsSound t cache none loaded sound h = made-IsSound t cache loaded sound
  kept_or_made-IsSound t cache (some e) loaded sound h =
      elim (Bool-cases (same_text e.revision (revision_of t))) [
        | inr other ↦ rw other (made-IsSound t cache loaded sound)
        | inl same ↦
            let (made_for, at_fetch, at_key) =
              find_entry-IsSound t.provider.fetch (cache_key t) cache e sound h in
            let (s, loaded_s, fetch_s, key_s, revision_s, built) = made_for in
            let one : s ≡ t =
              loaded-≡ profiles s t loaded_s loaded (sym key_s ∙ at_key)
                (sym revision_s ∙ same_text-≡ e.revision (revision_of t) same)
                (sym fetch_s ∙ at_fetch) in
            rw same (sound, built ∙ ap build one)
      ]

  -- One call after another, from a cache.
  unfoldable pub resolve_all : List SlotTarget → List (Entry M) → List M
  resolve_all [] cache = []
  resolve_all (t ∷ ts) cache =
      (resolve_model build t cache).1 ∷ resolve_all ts (resolve_model build t cache).0

  resolve_all-IsSound :
      (ts : List SlotTarget) (cache : List (Entry M))
      → All (IsLoaded profiles) ts
      → All IsSound cache
      → resolve_all ts cache ≡ map build ts
  unfolding resolve_all resolve_model
  resolve_all-IsSound [] cache loaded sound = refl
  resolve_all-IsSound (t ∷ ts) cache (first_loaded, others) sound =
      let (still, built) =
        kept_or_made-IsSound t cache (find_entry build t.provider.fetch (cache_key t) cache)
          first_loaded sound refl in
      λ i. built i ∷ resolve_all-IsSound ts _ others still i

  -- From an empty cache, any sequence of targets that were loaded from the providers' profiles gets
  -- the very models that would be built for each of them afresh, so a rotated key takes effect at
  -- once and no tenant gets another's client.
  pub resolve_all_fresh :
      (ts : List SlotTarget) → All (IsLoaded profiles) ts → resolve_all ts [] ≡ map build ts
  resolve_all_fresh ts loaded = resolve_all-IsSound ts [] loaded tt
