-- ===== src/Cache/Entries.antt =====
-- What the cache holds after Set, and how much.
use framework_kyrux.Prelude.{
  ℕ, ◌+◌, ◌<◌, ◌≤◌, ◌≡◌, ◌≢◌, ◌⊎◌, refl, ap, inl, inr, String, [], ◌∷◌, none, some, arith, ltb, leb,
  length, if◌then◌else◌, dec_text, Bool-cases, Option-cases,
}
use framework_kyrux.Prelude.Dict.{
  Dict, lookup, erase, HasDistinctKeys, lookup-insert, lookup-erase, lookup-keep, length-insert,
  length-erase-le, erase-HasDistinctKeys, keep-HasDistinctKeys,
}
use framework_kyrux.Cache.{Entry, Cache, lasts, sweep, evict_locked, has_key, make_room, set, get}

module _ {ℓ} {A : Type ℓ} where
  -- Deleting a key that is there makes room.
  length-erase-lt :
      (key : String) (m : Dict (Entry A)) → lookup key m ≢ none → length (erase key m) < length m
  unfolding lookup erase
  length-erase-lt key [] h = absurd (h refl)
  length-erase-lt key ((j, e) ∷ m) h = ground (arith, length-erase-lt key m, length-erase-le key m)

  -- The victim is a key of the entries, if there are any.
  abbrev pub IsVictim : (Dict (Entry A) → String) → Type ℓ
  IsVictim victim = (m : Dict (Entry A)) → m ≢ [] → lookup (victim m) m ≢ none

  length-evict_locked :
      (victim : Dict (Entry A) → String) (now : ℕ) (c : Cache A)
      → IsVictim victim
      → c.entries ≢ []
      → length (evict_locked victim now c).entries < length c.entries
  unfolding evict_locked
  length-evict_locked victim now c v some_entry =
      elim (Bool-cases (ltb (length (sweep now c.entries)) (length c.entries))) [
        | inl e ↦ rw e (ground arith)
        | inr e ↦ rw e (length-erase-lt (victim c.entries) c.entries (v c.entries some_entry))
      ]

  max_entries-evict_locked :
      (victim : Dict (Entry A) → String) (now : ℕ) (c : Cache A)
      → (evict_locked victim now c).max_entries ≡ c.max_entries
  unfolding evict_locked
  max_entries-evict_locked victim now c =
      elim (Bool-cases (ltb (length (sweep now c.entries)) (length c.entries))) [
        | inl e ↦ rw e refl
        | inr e ↦ rw e refl
      ]

  -- Room is made exactly for a new key in a full cache.
  make_room_split :
      (victim : Dict (Entry A) → String) (key : String) (now : ℕ) (c : Cache A)
      → ((make_room victim key now c ≡ c)
          × ((lookup key c.entries ≢ none) ⊎ (length c.entries < c.max_entries)))
        ⊎ ((make_room victim key now c ≡ evict_locked victim now c)
            × (lookup key c.entries ≡ none)
            × (c.max_entries ≤ length c.entries))
  unfolding make_room has_key
  make_room_split victim key now c = elim (Option-cases (lookup key c.entries)) [
    | inr (e, found) ↦ inl (rw (found, has_key) refl, inl (ground arith))
    | inl free ↦ elim (Bool-cases (leb c.max_entries (length c.entries))) [
      | inl full ↦ inr (rw (free, has_key, full) refl, free, ground arith)
      | inr room ↦ inl (rw (free, has_key, room) refl, inr (ground arith))
    ]
  ]

  -- A key that an eviction leaves has the entry that it had.
  evicted-lookup :
      (victim : Dict (Entry A) → String) (now : ℕ) (j : String) (c : Cache A)
      → HasDistinctKeys c.entries
      → (lookup j (evict_locked victim now c).entries ≡ none)
        ⊎ (lookup j (evict_locked victim now c).entries ≡ lookup j c.entries)
  unfolding evict_locked sweep
  evicted-lookup victim now j c d =
      elim (Bool-cases (ltb (length (sweep now c.entries)) (length c.entries))) [
        | inl e ↦ rw e (ground (arith, lookup-keep (lasts now) j c.entries d))
        | inr e ↦ rw e (ground (arith, lookup-erase (victim c.entries) j c.entries))
      ]

  evict_locked-HasDistinctKeys :
      (victim : Dict (Entry A) → String) (now : ℕ) (c : Cache A)
      → HasDistinctKeys c.entries
      → HasDistinctKeys (evict_locked victim now c).entries
  unfolding evict_locked sweep
  evict_locked-HasDistinctKeys victim now c d =
      elim (Bool-cases (ltb (length (sweep now c.entries)) (length c.entries))) [
        | inl e ↦ rw e (keep-HasDistinctKeys (lasts now) c.entries d)
        | inr e ↦ rw e (erase-HasDistinctKeys (victim c.entries) c.entries d)
      ]

  -- Set keeps a cache within its limit of at least one entry, whichever key is evicted.
  pub set_bounded :
      (victim : Dict (Entry A) → String) (key : String) (x : A) (ttl now : ℕ) (c : Cache A)
      → IsVictim victim
      → 1 ≤ c.max_entries
      → length c.entries ≤ c.max_entries
      → (length (set victim key x ttl now c).entries ≤ c.max_entries)
        × ((set victim key x ttl now c).max_entries ≡ c.max_entries)
  unfolding set
  set_bounded victim key x ttl now c v positive few =
      let e : Entry A = record { value = x; expires = now + ttl } in
      elim (make_room_split victim key now c) [
        | inl (same, room) ↦ rw same (ground (arith, length-insert key e c.entries), refl)
        | inr (evicts, free, full) ↦
            let fewer =
              length-evict_locked victim now c v (λ no_entry. ground (arith, ap length no_entry)) in
            let limit = max_entries-evict_locked victim now c in
            rw evicts
              (ground (arith, length-insert key e (evict_locked victim now c).entries), limit)
      ]

  -- After Set, the key has the value until its time is over; of another key, the cache returns what
  -- it returned before or nothing, and what it returned before if the key was there or the cache
  -- was not full.
  pub get-set :
      (victim : Dict (Entry A) → String) (key j : String) (x : A) (ttl now later : ℕ) (c : Cache A)
      → HasDistinctKeys c.entries
      → (get key later (set victim key x ttl now c)
          ≡ (if ltb (now + ttl) later then none else some x))
        × ((key ≡ j)
            ⊎ (get j later (set victim key x ttl now c) ≡ get j later c)
            ⊎ ((get j later (set victim key x ttl now c) ≡ none)
                × (lookup key c.entries ≡ none)
                × (c.max_entries ≤ length c.entries)))
  unfolding set get
  get-set victim key j x ttl now later c d =
      let e : Entry A = record { value = x; expires = now + ttl } in
      let room = make_room victim key now c in
      (
        ground (arith, lookup-insert key key e room.entries),
        elim (dec_text key j) [
          | yes same ↦ inl same
          | no other ↦ inr (elim (make_room_split victim key now c) [
            | inl (kept, why) ↦ inl (
                ground
                  (arith, lookup-insert key j e room.entries, ap (λ r. lookup j r.entries) kept))
            | inr (evicts, free, full) ↦ elim (evicted-lookup victim now j c d) [
              | inl gone ↦ inr (
                ground (
                  arith,
                  lookup-insert key j e room.entries,
                  ap (λ r. lookup j r.entries) evicts,
                ),
                free,
                full,
              )
              | inr same ↦ inl (
                  ground (
                    arith,
                    lookup-insert key j e room.entries,
                    ap (λ r. lookup j r.entries) evicts,
                  ))
            ]
          ])
        ],
      )
