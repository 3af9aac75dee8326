-- ===== src/Prelude/Dict.antt =====
-- A map with text keys, as an association list: reading, writing and deleting a key, its size, and
-- deleting every entry that fails a test.
use Prim.Native.Nat.{◌+◌, ◌≤◌}
use Prim.Native.String.{String}
use mathlib.Core.Path.{◌≡◌, refl}
use mathlib.Core.Logic.{ite, ◌≢◌}
use mathlib.Core.Bool.{Bool}
use mathlib.Core.List.{List, [], ◌∷◌}
use mathlib.Core.Option.{Option, none, some}
use native.Mathlib.Omega.{arith}
use framework_kyrux.Prelude.Tests.{if◌then◌else◌, dec_text}
use framework_kyrux.Prelude.Lists.{length, All}

abbrev pub Dict {ℓ} : Type ℓ → Type ℓ
Dict V = List (String × V)

module _ {ℓ} {V : Type ℓ} where
  unfoldable pub lookup : String → Dict V → Option V
  lookup k [] = none
  lookup k ((j, v) ∷ m) = ite (dec_text j k) (some v) (lookup k m)

  unfoldable pub insert : String → V → Dict V → Dict V
  insert k v [] = (k, v) ∷ []
  insert k v ((j, w) ∷ m) = ite (dec_text j k) ((j, v) ∷ m) ((j, w) ∷ insert k v m)

  unfoldable pub erase : String → Dict V → Dict V
  erase k [] = []
  erase k ((j, w) ∷ m) = ite (dec_text j k) (erase k m) ((j, w) ∷ erase k m)

  unfoldable pub keep : (V → Bool) → Dict V → Dict V
  keep p [] = []
  keep p ((j, w) ∷ m) = if p w then (j, w) ∷ keep p m else keep p m

  -- No key stands twice.
  abbrev pub HasDistinctKeys : Dict V → Type ℓ
  HasDistinctKeys [] = Unit
  HasDistinctKeys ((k, v) ∷ m) = (lookup k m ≡ none) × HasDistinctKeys m

  pub lookup-insert :
      (k j : String) (v : V) (m : Dict V)
      → lookup j (insert k v m) ≡ ite (dec_text k j) (some v) (lookup j m)
  unfolding lookup insert
  lookup-insert k j v [] = refl
  lookup-insert k j v ((i, w) ∷ m) = ground (arith, lookup-insert k j v m)

  pub lookup-erase :
      (k j : String) (m : Dict V) → lookup j (erase k m) ≡ ite (dec_text k j) none (lookup j m)
  unfolding lookup erase
  lookup-erase k j [] = ground arith
  lookup-erase k j ((i, w) ∷ m) = ground (arith, lookup-erase k j m)

  pub length-insert :
      (k : String) (v : V) (m : Dict V)
      → length (insert k v m) ≡ elim (lookup k m) [ none ↦ length m + 1 | some _ ↦ length m ]
  unfolding lookup insert
  length-insert k v [] = omega arith
  length-insert k v ((i, w) ∷ m) = ground (arith, length-insert k v m)

  pub length-erase-le : (k : String) (m : Dict V) → length (erase k m) ≤ length m
  unfolding erase
  length-erase-le k [] = omega arith
  length-erase-le k ((i, w) ∷ m) = ground (arith, length-erase-le k m)

  pub length-keep-le : (p : V → Bool) (m : Dict V) → length (keep p m) ≤ length m
  unfolding keep
  length-keep-le p [] = omega arith
  length-keep-le p ((i, w) ∷ m) = ground (arith, length-keep-le p m)

  pub insert-HasDistinctKeys :
      (k : String) (v : V) (m : Dict V) → HasDistinctKeys m → HasDistinctKeys (insert k v m)
  unfolding insert lookup
  insert-HasDistinctKeys k v [] h = (refl, h)
  insert-HasDistinctKeys k v ((i, w) ∷ m) h =
      ground (arith, insert-HasDistinctKeys k v m h.1, lookup-insert k i v m)

  pub erase-HasDistinctKeys :
      (k : String) (m : Dict V) → HasDistinctKeys m → HasDistinctKeys (erase k m)
  unfolding erase lookup
  erase-HasDistinctKeys k [] h = h
  erase-HasDistinctKeys k ((i, w) ∷ m) h =
      ground (arith, erase-HasDistinctKeys k m h.1, lookup-erase k i m)

  -- A key that is absent stays absent.
  pub lookup-keep-none :
      (p : V → Bool) (j : String) (m : Dict V) → lookup j m ≡ none → lookup j (keep p m) ≡ none
  unfolding lookup keep
  lookup-keep-none p j [] h = h
  lookup-keep-none p j ((i, w) ∷ m) h = ground (arith, lookup-keep-none p j m)

  abbrev pub keep_value : (V → Bool) → Option V → Option V
  keep_value p none = none
  keep_value p (some v) = if p v then some v else none

  pub lookup-keep :
      (p : V → Bool) (j : String) (m : Dict V)
      → HasDistinctKeys m
      → lookup j (keep p m) ≡ keep_value p (lookup j m)
  unfolding lookup keep
  lookup-keep p j [] h = refl
  lookup-keep p j ((i, w) ∷ m) h = ground (arith, lookup-keep p j m h.1, lookup-keep-none p i m)

  pub keep-HasDistinctKeys :
      (p : V → Bool) (m : Dict V) → HasDistinctKeys m → HasDistinctKeys (keep p m)
  unfolding keep lookup
  keep-HasDistinctKeys p [] h = h
  keep-HasDistinctKeys p ((i, w) ∷ m) h =
      ground (arith, keep-HasDistinctKeys p m h.1, lookup-keep-none p i m)

  abbrev pub keys : Dict V → List String
  keys [] = []
  keys ((k, v) ∷ m) = k ∷ keys m

  keys_found_later :
      (i : String) (w : V) (m : Dict V) (ks : List String)
      → All (λ k. lookup k m ≢ none) ks
      → All (λ k. lookup k ((i, w) ∷ m) ≢ none) ks
  unfolding lookup
  keys_found_later i w m [] h = tt
  keys_found_later i w m (k ∷ ks) h = (ground arith, keys_found_later i w m ks h.1)

  -- The keys of a map are found in it.
  pub keys_found : (m : Dict V) → All (λ k. lookup k m ≢ none) (keys m)
  unfolding lookup
  keys_found [] = tt
  keys_found ((k, v) ∷ m) = (ground arith, keys_found_later k v m (keys m) (keys_found m))
