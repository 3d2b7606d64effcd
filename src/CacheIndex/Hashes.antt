-- ===== src/CacheIndex/Hashes.antt =====
-- `prefix_hashes` of auto_router/cache_index.py: requests that share a prefix share its hashes.
use auto_model_router.Prelude.{ℕ, ◌≡◌, refl, ap, String, List, [], ◌∷◌, ◌++◌, length, suc}
use auto_model_router.CacheIndex.{prefix_hashes, feed}

module _ {M : Type 0} (canonical : M → List ℕ) (hexdigest : List ℕ → String) where
  -- What the digest has taken after some messages.
  abbrev pub fed_by : List ℕ → List M → List ℕ
  fed_by fed [] = fed
  fed_by fed (m ∷ ms) = fed_by (feed canonical hexdigest fed m) ms

  -- The hashes of a conversation that grows are the earlier hashes, followed by those of the new
  -- messages on top of what the digest had taken: one hash for each message.
  pub prefix_hashes-append :
      (fed : List ℕ) (ms ns : List M)
      → prefix_hashes canonical hexdigest fed (ms ++ ns)
        ≡ prefix_hashes canonical hexdigest fed ms
          ++ prefix_hashes canonical hexdigest (fed_by fed ms) ns
  unfolding prefix_hashes
  prefix_hashes-append fed [] ns = refl
  prefix_hashes-append fed (m ∷ ms) ns =
      let fed' = feed canonical hexdigest fed m in
      ap (λ hs. hexdigest fed' ∷ hs) (prefix_hashes-append fed' ms ns)

  pub length-prefix_hashes :
      (fed : List ℕ) (ms : List M) → length (prefix_hashes canonical hexdigest fed ms) ≡ length ms
  unfolding prefix_hashes
  length-prefix_hashes fed [] = refl
  length-prefix_hashes fed (m ∷ ms) =
      ap suc (length-prefix_hashes (feed canonical hexdigest fed m) ms)
