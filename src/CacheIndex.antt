-- ===== src/CacheIndex.antt =====
-- auto_router/cache_index.py: the prefix-cache index, the rolling hashes and the token estimator.
-- `hexdigest` stands for SHA-256 of the bytes fed so far, and `canonical` for the bytes of a
-- message's canonical JSON. The clock is an argument, and each method runs whole, as under its lock.
pub mod Lookup
pub mod Hashes
use auto_model_router.Prelude.{
  ℕ, zero, suc, ◌+◌, ◌-◌, ◌/◌, max, String, Bool, true, false, not, ◌&&◌, Option, none, some, List,
  [], ◌∷◌, ◌++◌, Eq, string_eq, pair_eq, ◌==◌, ltb, if◌then◌else◌, any, length, get_elem?, take,
  last?, sort_by,
}
use auto_model_router.Prelude.Float.{Float, lit, ◌⊕◌, ◌⊖◌, ◌⊗◌, ◌⊘◌, ◌≤?◌, ◌<?◌}
use auto_model_router.Prelude.Dict
use auto_model_router.Prelude.Dict.{Dict}
use auto_model_router.Catalog.{ModelInfo, or_else}

-- `prefix_hashes` after the tools and the system prompt: `fed` is what the digest has taken.
module _ {M : Type 0} (canonical : M → List ℕ) (hexdigest : List ℕ → String) where
  -- b"\x00message\x00"
  abbrev pub separator : List ℕ
  separator = 0 ∷ 109 ∷ 101 ∷ 115 ∷ 115 ∷ 97 ∷ 103 ∷ 101 ∷ 0 ∷ []

  abbrev pub feed : List ℕ → M → List ℕ
  feed fed m = fed ++ (separator ++ canonical m)

  unfoldable pub prefix_hashes : List ℕ → List M → List String
  prefix_hashes fed [] = []
  prefix_hashes fed (m ∷ ms) = hexdigest (feed fed m) ∷ prefix_hashes (feed fed m) ms

-- `estimate_tokens` on the lengths of the three canonical texts
unfoldable pub estimate_tokens : ℕ → ℕ → ℕ → ℕ
estimate_tokens tools system messages = max 1 ((tools + system + messages) / 4)

pub record CalibratedEstimator (F : Type 0) : Type 0 where
  pub ratio : F
  pub alpha : F
  pub samples : ℕ

module _ {F : Type 0} ⦃fl : Float F⦄ where
  unfoldable pub estimate : CalibratedEstimator F → ℕ → ℕ
  estimate e raw = max 1 (fl.truncate (lit raw ⊗ e.ratio))

  unfoldable pub observe : CalibratedEstimator F → ℕ → ℕ → CalibratedEstimator F
  observe e raw_estimate actual_tokens =
      if ltb 0 raw_estimate && ltb 0 actual_tokens
      then record e {
        ratio = (lit 1 ⊖ e.alpha) ⊗ e.ratio ⊕ e.alpha ⊗ (lit actual_tokens ⊘ lit raw_estimate);
        samples = e.samples + 1;
      }
      else e

pub record Warm (F : Type 0) : Type 0 where
  pub model : String
  pub prefix_tokens : ℕ
  pub started_at : F
  pub message_index : ℕ

pub record Entry (F : Type 0) : Type 0 where
  pub model : String
  pub prefix_tokens : ℕ
  pub started_at : F
  pub message_index : ℕ
  pub ttl_seconds : ℕ

abbrev pub Key : Type 0
Key = String × String

abbrev pub total_of : List ℕ → ℕ
total_of token_counts = or_else (last? token_counts) 0

pub record PrefixCacheIndex (F : Type 0) : Type 0 where
  pub entries : Dict Key (Entry F)
  pub safety : ℕ
  pub max_entries : ℕ
  pub hits : ℕ
  pub misses : ℕ

module _ {F : Type 0} ⦃fl : Float F⦄ where
  abbrev pub entry_of : ModelInfo F → F → ℕ → ℕ → Entry F
  entry_of m started_at tokens idx = record {
    model = m.name;
    prefix_tokens = tokens;
    started_at = started_at;
    message_index = idx;
    ttl_seconds = m.cache.ttl_seconds;
  }

  -- The loop over `enumerate(zip(hashes, token_counts))`
  unfoldable pub write_all :
      ModelInfo F → F → ℕ → List String → List ℕ → Dict Key (Entry F) → Dict Key (Entry F)
  write_all m started_at idx [] tokens d = d
  write_all m started_at idx (h ∷ hs) [] d = d
  write_all m started_at idx (h ∷ hs) (t ∷ ts) d =
      write_all m started_at (idx + 1) hs ts
        (Dict.insert (m.name, h) (entry_of m started_at t idx) d)

  abbrev pub is_expired : F → Key → Entry F → Bool
  is_expired now k e = lit e.ttl_seconds <? (now ⊖ e.started_at)

  abbrev older : Key × Entry F → Key × Entry F → Bool
  older a b = a.1.started_at <? b.1.started_at

  abbrev pub oldest : ℕ → Dict Key (Entry F) → Dict Key (Entry F)
  oldest n d = take n (sort_by older d)

  abbrev pub among : Dict Key (Entry F) → Key → Entry F → Bool
  among gone k e = any (λ g. g.0 == k) gone

  -- `_evict_locked`
  unfoldable pub evict : ℕ → F → Dict Key (Entry F) → Dict Key (Entry F)
  evict max_entries now d =
      let live = Dict.remove_if (is_expired now) d in
      if ltb max_entries (length live)
      then Dict.remove_if (among (oldest (length live - max_entries) live)) live
      else live

  -- `record`, `now` being the clock's time in case it evicts
  unfoldable pub record_prefixes :
      PrefixCacheIndex F → ModelInfo F → List String → List ℕ → F → F → PrefixCacheIndex F
  record_prefixes index m [] token_counts started_at now = index
  record_prefixes index m (h ∷ hs) token_counts started_at now =
      let written = write_all m started_at 0 (h ∷ hs) token_counts index.entries in
      if ltb (total_of token_counts) m.cache.min_tokens then index else record index {
        entries =
            if ltb index.max_entries (length written)
            then evict index.max_entries now written
            else written;
      }

  abbrev pub is_live : ℕ → F → Entry F → Bool
  is_live safety now e = (now ⊖ e.started_at) ≤? lit (e.ttl_seconds - safety)

  -- The entry of a hash, if the model holds one that is still warm.
  abbrev pub live_entry : ℕ → F → Option (Entry F) → Option (Entry F)
  live_entry safety now none = none
  live_entry safety now (some e) = if is_live safety now e then some e else none

  abbrev pub hash_entry : PrefixCacheIndex F → String → Option String → Option (Entry F)
  hash_entry index model none = none
  hash_entry index model (some h) = Dict.get (model, h) index.entries

  abbrev pub live_at : PrefixCacheIndex F → String → List String → F → ℕ → Option (Entry F)
  live_at index model hashes now idx =
      live_entry index.safety now (hash_entry index model (get_elem? hashes idx))

  abbrev pub warm_of : ℕ → Entry F → Warm F
  warm_of idx e = record {
    model = e.model;
    prefix_tokens = e.prefix_tokens;
    started_at = e.started_at;
    message_index = idx;
  }

  abbrev pub or_shorter : ℕ → Option (Entry F) → Option (Warm F) → Option (Warm F)
  or_shorter idx none rest = rest
  or_shorter idx (some e) rest = some (warm_of idx e)

  -- `for idx in range(n - 1, -1, -1)`
  unfoldable pub scan : PrefixCacheIndex F → String → List String → F → ℕ → Option (Warm F)
  scan index model hashes now zero = none
  scan index model hashes now (suc idx) =
      let rest = scan index model hashes now idx in
      or_shorter idx (live_at index model hashes now idx) rest

  abbrev count_lookup : PrefixCacheIndex F → Option (Warm F) → PrefixCacheIndex F
  count_lookup index none = record index { misses = index.misses + 1 }
  count_lookup index (some w) = record index { hits = index.hits + 1 }

  unfoldable pub lookup :
      PrefixCacheIndex F → String → List String → F → Option (Warm F) × PrefixCacheIndex F
  unfolding scan
  lookup index model hashes now =
      let found = scan index model hashes now (length hashes) in (found, count_lookup index found)
