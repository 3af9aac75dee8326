-- ===== src/Orm/Ident.antt =====
-- The checks of identifiers and ON clauses (core/orm/query.go: reIdent, validIdent, reJoinOn,
-- validJoinOn). Each regular expression is an automaton over code points, read after TrimSpace.
pub mod Default
use framework_kyrux.Prelude.{
  ℕ, ◌≡◌, refl, String, Bool, true, false, List, [], ◌∷◌, arith, leb, ◌||◌, ◌&&◌, if◌then◌else◌,
  codes, trim_space, ◌-◌, ◌⊎◌, inl, inr, sym, ◌∙◌, ◌==◌,
}
use native.Mathlib.Decide.{ℕ_discrete}
use framework_kyrux.Orm.Marks.{marks, count_marks, count_marks-trim_space}

-- `[a-zA-Z_]`. Under `(?i)` a class also takes what folds to its letters: U+017F and U+212A.
is_start : Bool → ℕ → Bool
is_start fold c =
    (leb b'a' c && leb c b'z')
    || (leb b'A' c && leb c b'Z')
    || c == b'_'
    || (fold && (c == 0x17f || c == 0x212a))

-- `[a-zA-Z0-9_]`
is_word : Bool → ℕ → Bool
unfolding is_start
is_word fold c = is_start fold c || (leb b'0' c && leb c b'9')

-- `\s`
is_blank : ℕ → Bool
is_blank c = c == 9 || c == 10 || c == 12 || c == 13 || c == 32

-- A letter of a keyword under `(?i)`; `s` also folds from U+017F.
is_letter : ℕ → ℕ → Bool
is_letter lower c = c == lower || c == lower - 32 || (lower == b's' && c == 0x17f)

-- How much of the pattern has been read.
pub data Scan : Type 0 where
  start word dot dotted gap a as_ asc d de des desc reject : Scan

-- (?i)^[a-zA-Z_][a-zA-Z0-9_]*(\.[a-zA-Z_][a-zA-Z0-9_]*)?(\s+(ASC|DESC))?$
ident_step : Scan → ℕ → Scan
unfolding is_start is_word is_blank is_letter
ident_step start c = if is_start true c then word else reject
ident_step word c =
    if is_word true c then word else if c == b'.' then dot else if is_blank c then gap else reject
ident_step dot c = if is_start true c then dotted else reject
ident_step dotted c = if is_word true c then dotted else if is_blank c then gap else reject
ident_step gap c =
    if is_blank c
    then gap
    else if is_letter b'a' c
    then a
    else if is_letter b'd' c
    then d
    else reject
ident_step a c = if is_letter b's' c then as_ else reject
ident_step as_ c = if is_letter b'c' c then asc else reject
ident_step d c = if is_letter b'e' c then de else reject
ident_step de c = if is_letter b's' c then des else reject
ident_step des c = if is_letter b'c' c then desc else reject
ident_step _ c = reject

run : {S : Type 0} → (S → ℕ → S) → S → List ℕ → S
run step s [] = s
run step s (c ∷ cs) = run step (step s c) cs

ident_accepts : Scan → Bool
ident_accepts word = true
ident_accepts dotted = true
ident_accepts asc = true
ident_accepts desc = true
ident_accepts _ = false

-- validIdent
unfoldable pub valid_ident : String → Bool
unfolding ident_step ident_accepts run trim_space
valid_ident s = ident_accepts (run ident_step start (trim_space (codes s)))

pub data JoinScan : Type 0 where
  table table_rest column column_rest before_eq after_eq table2 column2 column2_rest fail : JoinScan

-- ^[a-zA-Z_][a-zA-Z0-9_]*\.[a-zA-Z_][a-zA-Z0-9_]*\s*=\s*[a-zA-Z_][a-zA-Z0-9_]*\.[a-zA-Z_][a-zA-Z0-9_]*$
join_step : JoinScan → ℕ → JoinScan
unfolding is_start is_word is_blank
join_step table c = if is_start false c then table_rest else fail
join_step table_rest c = if is_word false c then table_rest else if c == b'.' then column else fail
join_step column c = if is_start false c then column_rest else fail
join_step column_rest c =
    if is_word false c
    then column_rest
    else if is_blank c
    then before_eq
    else if c == b'='
    then after_eq
    else fail
join_step before_eq c = if is_blank c then before_eq else if c == b'=' then after_eq else fail
join_step after_eq c = if is_blank c then after_eq else if is_start false c then table2 else fail
join_step table2 c = if is_word false c then table2 else if c == b'.' then column2 else fail
join_step column2 c = if is_start false c then column2_rest else fail
join_step column2_rest c = if is_word false c then column2_rest else fail
join_step fail c = fail

join_accepts : JoinScan → Bool
join_accepts column2_rest = true
join_accepts _ = false

-- validJoinOn
unfoldable pub valid_join_on : String → Bool
unfolding join_step join_accepts run trim_space
valid_join_on s = join_accepts (run join_step table (trim_space (codes s)))

ident_step-mark : (s : Scan) → ident_step s b'?' ≡ reject
unfolding ident_step
ident_step-mark start = refl
ident_step-mark _ = refl

join_step-mark : (s : JoinScan) → join_step s b'?' ≡ fail
unfolding join_step
join_step-mark table = refl
join_step-mark _ = refl

run-reject : (cs : List ℕ) → run ident_step reject cs ≡ reject
unfolding run ident_step
run-reject [] = refl
run-reject (c ∷ cs) = run-reject cs

run-fail : (cs : List ℕ) → run join_step fail cs ≡ fail
unfolding run join_step
run-fail [] = refl
run-fail (c ∷ cs) = run-fail cs

-- An automaton that rejects at a placeholder accepts no text that has one.
module _ {S : Type 0} (step : S → ℕ → S) (dead : S) (at_mark : (s : S) → step s b'?' ≡ dead)
    (stays : (cs : List ℕ) → run step dead cs ≡ dead) where
  run_marked : (s : S) (cs : List ℕ) → (run step s cs ≡ dead) ⊎ (count_marks cs ≡ 0)
  unfolding run count_marks
  run_marked s [] = inr refl
  run_marked s (c ∷ cs) = elim (ℕ_discrete c b'?') [
    | yes e ↦ inl (rw (e, at_mark s) (stays cs))
    | no ne ↦ elim (run_marked (step s c) cs) [ inl h ↦ inl h | inr h ↦ inr (ground arith) ]
  ]

-- An identifier that passes the check holds no placeholder.
pub marks-valid_ident : (s : String) → valid_ident s ≡ true → marks s ≡ 0
unfolding valid_ident
marks-valid_ident s h =
    elim (run_marked ident_step reject ident_step-mark run-reject start (trim_space (codes s))) [
      | inl e ↦ absurd (rejected (rw e at h))
      | inr e ↦ sym (count_marks-trim_space (codes s)) ∙ e
    ]
  where
    rejected : ident_accepts reject ≡ true → ⊥
    rejected e = cc

pub marks-valid_join_on : (s : String) → valid_join_on s ≡ true → marks s ≡ 0
unfolding valid_join_on
marks-valid_join_on s h =
    elim (run_marked join_step fail join_step-mark run-fail table (trim_space (codes s))) [
      | inl e ↦ absurd (rejected (rw e at h))
      | inr e ↦ sym (count_marks-trim_space (codes s)) ∙ e
    ]
  where
    rejected : join_accepts fail ≡ true → ⊥
    rejected e = cc
