-- ===== src/Prelude/Ids.antt =====
-- Lists of texts: membership, deleting the first occurrence, and keeping those that pass a test.
use mathlib.Core.Path.{◌≡◌, refl}
use mathlib.Core.Logic.{ite, ◌≢◌}
use mathlib.Core.Bool.{Bool, true, false}
use mathlib.Core.List.{List, [], ◌∷◌, ◌++◌}
use Prim.Native.Nat.{◌+◌, ◌≤◌}
use Prim.Native.String.{String}
use native.Mathlib.Omega.{arith}
use framework_kyrux.Prelude.Tests.{if◌then◌else◌, dec_text}
use framework_kyrux.Prelude.Lists.{length}

unfoldable pub contains : String → List String → Bool
contains i [] = false
contains i (j ∷ js) = ite (dec_text j i) true (contains i js)

unfoldable pub remove_first : String → List String → List String
remove_first i [] = []
remove_first i (j ∷ js) = ite (dec_text j i) js (j ∷ remove_first i js)

unfoldable pub keep_ids : (String → Bool) → List String → List String
keep_ids p [] = []
keep_ids p (j ∷ js) = if p j then j ∷ keep_ids p js else keep_ids p js

-- No text stands twice.
abbrev pub AreDistinct : List String → Type 0
AreDistinct [] = Unit
AreDistinct (j ∷ js) = (contains j js ≡ false) × AreDistinct js

pub contains-append :
    (i j : String) (js : List String)
    → contains i (js ++ j ∷ []) ≡ ite (dec_text j i) true (contains i js)
unfolding contains
contains-append i j [] = refl
contains-append i j (k ∷ js) = ground (arith, contains-append i j js)

pub contains-keep_ids :
    (p : String → Bool) (i : String) (js : List String)
    → contains i (keep_ids p js) ≡ (if p i then contains i js else false)
unfolding contains keep_ids
contains-keep_ids p i [] = ground arith
contains-keep_ids p i (j ∷ js) = ground (arith, contains-keep_ids p i js)

pub contains-remove_first :
    (i j : String) (js : List String) → i ≢ j → contains j (remove_first i js) ≡ contains j js
unfolding contains remove_first
contains-remove_first i j [] h = refl
contains-remove_first i j (k ∷ js) h = ground (arith, contains-remove_first i j js h)

pub contains-remove_first_self :
    (i : String) (js : List String) → AreDistinct js → contains i (remove_first i js) ≡ false
unfolding contains remove_first
contains-remove_first_self i [] h = refl
contains-remove_first_self i (k ∷ js) h = ground (arith, contains-remove_first_self i js h.1)

pub length-remove_first :
    (i : String) (js : List String)
    → length js ≡ length (remove_first i js) + (if contains i js then 1 else 0)
unfolding contains remove_first
length-remove_first i [] = refl
length-remove_first i (k ∷ js) = ground (arith, length-remove_first i js)

pub length-keep_ids-le : (p : String → Bool) (js : List String) → length (keep_ids p js) ≤ length js
unfolding keep_ids
length-keep_ids-le p [] = omega arith
length-keep_ids-le p (j ∷ js) = ground (arith, length-keep_ids-le p js)

pub append-AreDistinct :
    (i : String) (js : List String)
    → contains i js ≡ false
    → AreDistinct js
    → AreDistinct (js ++ i ∷ [])
unfolding contains
append-AreDistinct i [] h d = (refl, tt)
append-AreDistinct i (j ∷ js) h d = ground (arith, contains-append j i js, append-AreDistinct i js)

pub remove_first-AreDistinct :
    (i : String) (js : List String) → AreDistinct js → AreDistinct (remove_first i js)
unfolding contains remove_first
remove_first-AreDistinct i [] d = tt
remove_first-AreDistinct i (j ∷ js) d =
    ground (arith, remove_first-AreDistinct i js, contains-remove_first i j js)

pub keep_ids-AreDistinct :
    (p : String → Bool) (js : List String) → AreDistinct js → AreDistinct (keep_ids p js)
unfolding keep_ids
keep_ids-AreDistinct p [] d = tt
keep_ids-AreDistinct p (j ∷ js) d =
    ground (arith, keep_ids-AreDistinct p js, contains-keep_ids p j js)
