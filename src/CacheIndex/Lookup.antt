-- ===== src/CacheIndex/Lookup.antt =====
-- What `lookup` and `record` of auto_router/cache_index.py promise.
use mathlib.Core.Option.{some-injective}
use native.Mathlib.Decide.{dec_lt}
use auto_model_router.Prelude.{
  ℕ, zero, suc, ◌+◌, ◌-◌, ◌≤◌, ◌<◌, ◌≡◌, refl, sym, ap, subst, ◌∙◌, String, true, false, Option,
  none, some, List, [], ◌∷◌, arith, string_eq, pair_eq, str_eq, if◌then◌else◌, length, get_elem?,
  last?,
}
use auto_model_router.Prelude.Float.{Float}
use auto_model_router.Prelude.Dict
use auto_model_router.Prelude.Dict.{Dict, get-insert, get-insert_same}
use auto_model_router.Catalog.{ModelInfo, or_else}
use auto_model_router.CacheIndex.{
  Entry, Warm, Key, PrefixCacheIndex, entry_of, write_all, record_prefixes, is_live, live_at,
  live_entry, hash_entry, scan, lookup, warm_of, or_shorter,
}

module _ {F : Type 0} ⦃fl : Float F⦄ (index : PrefixCacheIndex F) (model : String)
    (hashes : List String) (now : F) where
  -- The answer is the longest prefix that is still warm.
  pub record IsLongest (n : ℕ) (w : Warm F) : Type 0 where
    pub in_range : w.message_index < n
    pub entry : Entry F
    pub live : live_at index model hashes now w.message_index ≡ some entry
    pub same : w ≡ warm_of w.message_index entry
    pub longer_cold :
        (j : ℕ) → w.message_index < j → j < n → live_at index model hashes now j ≡ none

  step-IsLongest :
      (n : ℕ) (o : Option (Entry F)) (w : Warm F)
      → live_at index model hashes now n ≡ o
      → or_shorter n o (scan index model hashes now n) ≡ some w
      → (scan index model hashes now n ≡ some w → IsLongest n w)
      → IsLongest (suc n) w
  step-IsLongest n (some x) w e h ih = subst (IsLongest (suc n)) (some-injective _ _ h) (record {
    in_range = omega arith;
    entry = x;
    live = e;
    same = refl;
    longer_cold = λ j a b. absurd (omega arith);
  })
  step-IsLongest n none w e h ih =
      let l = ih h in
      record {
        in_range = omega (arith, l.in_range);
        entry = l.entry;
        live = l.live;
        same = l.same;
        longer_cold = λ j a b. elim (dec_lt j n) [
          | yes p ↦ l.longer_cold j a p
          | no p ↦
              let q : j ≡ n = omega arith in
              subst (λ k. live_at index model hashes now k ≡ none) (sym q) e
        ];
      }

  scan-IsLongest : (n : ℕ) (w : Warm F) → scan index model hashes now n ≡ some w → IsLongest n w
  unfolding scan
  scan-IsLongest zero w h = cc
  scan-IsLongest (suc n) w h =
      step-IsLongest n (live_at index model hashes now n) w refl h (scan-IsLongest n w)

  step-none :
      (n j : ℕ) (o : Option (Entry F))
      → live_at index model hashes now n ≡ o
      → or_shorter n o (scan index model hashes now n) ≡ none
      → j < suc n
      → (scan index model hashes now n ≡ none → j < n → live_at index model hashes now j ≡ none)
      → live_at index model hashes now j ≡ none
  step-none n j (some x) e h lt ih = cc
  step-none n j none e h lt ih = elim (dec_lt j n) [
    | yes p ↦ ih h p
    | no p ↦
        let q : j ≡ n = omega arith in
        subst (λ k. live_at index model hashes now k ≡ none) (sym q) e
  ]

  scan-none :
      (n j : ℕ)
      → scan index model hashes now n ≡ none
      → j < n
      → live_at index model hashes now j ≡ none
  unfolding scan
  scan-none zero j h lt = absurd (omega arith)
  scan-none (suc n) j h lt =
      step-none n j (live_at index model hashes now n) refl h lt (scan-none n j)

  -- A hit is the longest prefix of the conversation that this model still holds warm.
  pub lookup-IsLongest :
      (w : Warm F) → (lookup index model hashes now).0 ≡ some w → IsLongest (length hashes) w
  unfolding lookup
  lookup-IsLongest w h = scan-IsLongest (length hashes) w h

  -- A miss means that the model holds no prefix of the conversation warm.
  pub lookup-none :
      (j : ℕ)
      → (lookup index model hashes now).0 ≡ none
      → j < length hashes
      → live_at index model hashes now j ≡ none
  unfolding lookup
  lookup-none j h lt = scan-none (length hashes) j h lt

  -- Every lookup is counted once, and changes no entry.
  pub lookup-counts :
      let after = (lookup index model hashes now).1 in
      (after.hits + after.misses ≡ suc (index.hits + index.misses))
      × (after.entries ≡ index.entries)
  unfolding lookup
  lookup-counts = ground arith

last-Is :
    (x : String) (xs : List String)
    → (h : String) × (get_elem? (x ∷ xs) (length xs) ≡ some h) × (last? (x ∷ xs) ≡ some h)
last-Is x [] = (x, refl, refl)
last-Is x (y ∷ ys) = let l = last-Is y ys in (l.0, l.1, l.2)

module _ {F : Type 0} ⦃fl : Float F⦄ where
  -- The last write of the loop wins, and other models' entries stay.
  write_all-get :
      (m : ModelInfo F) (at : F) (idx : ℕ) (hs : List String) (ts : List ℕ) (d : Dict Key (Entry F))
      (name h : String)
      → str_eq m.name name ≡ false
      → Dict.get (name, h) (write_all m at idx hs ts d) ≡ Dict.get (name, h) d
  unfolding write_all
  write_all-get m at idx [] ts d name h ne = refl
  write_all-get m at idx (x ∷ xs) [] d name h ne = refl
  write_all-get m at idx (x ∷ xs) (t ∷ ts) d name h ne =
      write_all-get m at (idx + 1) xs ts (Dict.insert (m.name, x) (entry_of m at t idx) d) name h ne
      ∙ ground (arith, get-insert (m.name, x) (name, h) (entry_of m at t idx) d)

  -- After the loop the hash of the whole request is warm at the full token count.
  write_all-last :
      (m : ModelInfo F) (at : F) (idx : ℕ) (hs : List String) (ts : List ℕ) (d : Dict Key (Entry F))
      (h : String) (t : ℕ)
      → length hs ≡ length ts
      → last? hs ≡ some h
      → last? ts ≡ some t
      → Dict.get (m.name, h) (write_all m at idx hs ts d)
        ≡ some (entry_of m at t (idx + length hs - 1))
  unfolding write_all
  write_all-last m at idx [] ts d h t e p q = cc
  write_all-last m at idx (x ∷ xs) [] d h t e p q = cc
  write_all-last m at idx (x ∷ []) (u ∷ []) d h t e p q =
      let e1 : x ≡ h = some-injective _ _ p in
      let e2 : u ≡ t = some-injective _ _ q in
      let e3 : idx ≡ idx + 1 - 1 = omega arith in
      subst
        (λ k.
          Dict.get (m.name, k) (Dict.insert (m.name, x) (entry_of m at u idx) d)
          ≡ some (entry_of m at t (idx + 1 - 1)))
        e1
        (get-insert_same (m.name, x) (entry_of m at u idx) d
          ∙ ap (λ k. some (entry_of m at u k)) e3
          ∙ ap (λ k. some (entry_of m at k (idx + 1 - 1))) e2)
  write_all-last m at idx (x ∷ []) (u ∷ (v ∷ ts)) d h t e p q = absurd (omega arith)
  write_all-last m at idx (x ∷ (y ∷ xs)) (u ∷ []) d h t e p q = absurd (omega arith)
  write_all-last m at idx (x ∷ (y ∷ xs)) (u ∷ (v ∷ ts)) d h t e p q =
      let e1 : idx + 1 + length (y ∷ xs) - 1 ≡ idx + length (x ∷ (y ∷ xs)) - 1 = omega arith in
      write_all-last m at (idx + 1) (y ∷ xs) (v ∷ ts)
        (Dict.insert (m.name, x) (entry_of m at u idx) d) h t (omega (arith, e)) p q
      ∙ ap (λ k. some (entry_of m at t k)) e1

  kept :
      (index : PrefixCacheIndex F) (m : ModelInfo F) (x : String) (hs : List String) (ts : List ℕ)
      (t : ℕ) (at now : F)
      → last? ts ≡ some t
      → m.cache.min_tokens ≤ t
      → length (write_all m at 0 (x ∷ hs) ts index.entries) ≤ index.max_entries
      → record_prefixes index m (x ∷ hs) ts at now
        ≡ record index { entries = write_all m at 0 (x ∷ hs) ts index.entries }
  unfolding record_prefixes
  kept index m x hs ts t at now q room fit = ground (arith, ap (λ o. or_else o 0) q, room, fit)

  whole :
      (index : PrefixCacheIndex F) (name x h : String) (hs : List String) (w : Entry F) (later : F)
      → get_elem? (x ∷ hs) (length hs) ≡ some h
      → Dict.get (name, h) index.entries ≡ some w
      → is_live index.safety later w ≡ true
      → (lookup index name (x ∷ hs) later).0 ≡ some (warm_of (length hs) w)
  unfolding lookup scan
  whole index name x h hs w later e g l =
      ap
        (λ o.
          or_shorter (length hs) (live_entry index.safety later (hash_entry index name o))
            (scan index name (x ∷ hs) later (length hs)))
        e
      ∙ ap
          (λ o.
            or_shorter (length hs) (live_entry index.safety later o)
              (scan index name (x ∷ hs) later (length hs)))
          g
      ∙ ap
          (λ b.
            or_shorter (length hs) (if b then some w else none)
              (scan index name (x ∷ hs) later (length hs)))
          l

  -- A conversation that was recorded is found whole by the next lookup while its entry is live:
  -- one token count per hash, a total that reaches the model's minimum, and room in the index.
  pub lookup-record_prefixes :
      (index : PrefixCacheIndex F) (m : ModelInfo F) (x : String) (hs : List String) (ts : List ℕ)
      (t : ℕ) (at now later : F)
      → length (x ∷ hs) ≡ length ts
      → last? ts ≡ some t
      → m.cache.min_tokens ≤ t
      → length (write_all m at 0 (x ∷ hs) ts index.entries) ≤ index.max_entries
      → is_live index.safety later (entry_of m at t (length hs)) ≡ true
      → (lookup (record_prefixes index m (x ∷ hs) ts at now) m.name (x ∷ hs) later).0
        ≡ some (warm_of (length hs) (entry_of m at t (length hs)))
  unfolding record_prefixes lookup scan
  lookup-record_prefixes index m x hs ts t at now later e q room fit live =
      let l = last-Is x hs in
      let n : 0 + length (x ∷ hs) - 1 ≡ length hs = omega arith in
      ap (λ i. (lookup i m.name (x ∷ hs) later).0) (kept index m x hs ts t at now q room fit)
      ∙ whole (record index { entries = write_all m at 0 (x ∷ hs) ts index.entries }) m.name x l.0
          hs (entry_of m at t (length hs)) later l.1
          (write_all-last m at 0 (x ∷ hs) ts index.entries l.0 t e l.2 q
            ∙ ap (λ k. some (entry_of m at t k)) n)
          live
