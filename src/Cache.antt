-- ===== src/Cache.antt =====
-- The cache in memory (core/cache/cache.go). Time is an argument. The key that evictLocked deletes
-- when nothing has expired, any one in Go, is an argument too: `victim` gives it from the entries.
pub mod Entries
pub mod Tests
use framework_kyrux.Prelude.{
  ℕ, ◌+◌, String, Bool, true, false, List, [], ◌∷◌, Option, none, some, ltb, leb, length, not,
  if◌then◌else◌, ◌==◌, ◌&&◌,
}
use framework_kyrux.Prelude.Dict.{Dict, lookup, insert, erase, keep}

-- entry
pub record Entry {ℓ} (A : Type ℓ) : Type ℓ where
  pub value : A
  pub expires : ℕ

-- Cache, without the fields of the mode with Redis
pub record Cache {ℓ} (A : Type ℓ) : Type ℓ where
  pub entries : Dict (Entry A)
  pub max_entries : ℕ

-- DefaultMaxEntries
abbrev pub default_max_entries : ℕ
default_max_entries = 100000

module _ {ℓ} {A : Type ℓ} where
  unfoldable pub new : Cache A
  new = record { entries = []; max_entries = default_max_entries }

  unfoldable pub set_max_entries : ℕ → Cache A → Cache A
  set_max_entries n c = record c { max_entries = n }

  -- time.Now().After(e.expires)
  abbrev pub is_over : ℕ → Entry A → Bool
  is_over now e = ltb e.expires now

  abbrev pub lasts : ℕ → Entry A → Bool
  lasts now e = not (is_over now e)

  -- The first loop of evictLocked, and the loop of gc.
  unfoldable pub sweep : ℕ → Dict (Entry A) → Dict (Entry A)
  sweep now m = keep (lasts now) m

  -- One tick of gc
  unfoldable pub gc : ℕ → Cache A → Cache A
  gc now c = record c { entries = sweep now c.entries }

  unfoldable pub evict_locked : (Dict (Entry A) → String) → ℕ → Cache A → Cache A
  evict_locked victim now c =
      let kept = sweep now c.entries in
      if ltb (length kept) (length c.entries)
      then record c { entries = kept }
      else record c { entries = erase (victim c.entries) c.entries }

  unfoldable pub has_key : String → Cache A → Bool
  has_key key c = elim (lookup key c.entries) [ none ↦ false | some _ ↦ true ]

  -- What Set does first: an eviction, for a new key in a full cache.
  unfoldable pub make_room : (Dict (Entry A) → String) → String → ℕ → Cache A → Cache A
  make_room victim key now c =
      if not (has_key key c) && leb c.max_entries (length c.entries)
      then evict_locked victim now c
      else c

  unfoldable pub set : (Dict (Entry A) → String) → String → A → ℕ → ℕ → Cache A → Cache A
  set victim key v ttl now c =
      let room = make_room victim key now c in
      record room { entries = insert key (record { value = v; expires = now + ttl }) room.entries }

  unfoldable pub get : String → ℕ → Cache A → Option A
  get key now c = elim (lookup key c.entries) [
    | none ↦ none
    | some e ↦ if is_over now e then none else some e.value
  ]

  unfoldable pub delete : String → Cache A → Cache A
  delete key c = record c { entries = erase key c.entries }

  unfoldable pub len : Cache A → ℕ
  len c = length c.entries
