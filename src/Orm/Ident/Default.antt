-- ===== src/Orm/Ident/Default.antt =====
-- The check of a default value (core/orm/query.go: reDefault, validDefault), as an automaton.
use framework_kyrux.Prelude.{
  ℕ, String, Bool, true, false, leb, ◌&&◌, if◌then◌else◌, codes, trim_space, ◌==◌,
}
use framework_kyrux.Orm.Ident.{is_start, is_word, run}

pub data DefaultScan : Type 0 where
  first minus digits point fraction quote quoted word opened called reject : DefaultScan

is_digit : ℕ → Bool
is_digit c = leb b'0' c && leb c b'9'

-- (?i)^(-?[0-9]+(\.[0-9]+)?|'[^']*'|[a-zA-Z_][a-zA-Z0-9_]*(\(\))?)$
default_step : DefaultScan → ℕ → DefaultScan
unfolding is_start is_word is_digit
default_step first c =
    if c == b'-'
    then minus
    else if is_digit c
    then digits
    else if c == 39
    then quote
    else if is_start true c
    then word
    else reject
default_step minus c = if is_digit c then digits else reject
default_step digits c = if is_digit c then digits else if c == b'.' then point else reject
default_step point c = if is_digit c then fraction else reject
default_step fraction c = if is_digit c then fraction else reject
default_step quote c = if c == 39 then quoted else quote
default_step quoted c = reject
default_step word c = if is_word true c then word else if c == b'(' then opened else reject
default_step opened c = if c == b')' then called else reject
default_step called c = reject
default_step reject c = reject

default_accepts : DefaultScan → Bool
default_accepts digits = true
default_accepts fraction = true
default_accepts quoted = true
default_accepts word = true
default_accepts called = true
default_accepts _ = false

-- validDefault
unfoldable pub valid_default : String → Bool
unfolding default_step default_accepts run trim_space
valid_default s = default_accepts (run default_step first (trim_space (codes s)))
