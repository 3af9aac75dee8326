-- ===== src/Web.antt =====
-- A request, as far as the guards of core/security read it: what net/http gives them.
use framework_kyrux.Prelude.{String, Option, none, some}
use framework_kyrux.Prelude.Dict.{Dict, lookup}

-- `headers` has the first value of each header, and `cookies` of each cookie.
pub record Request : Type 0 where
  pub method : String
  pub path : String
  pub uri : String
  pub host : String
  pub remote_addr : String
  pub headers : Dict String
  pub cookies : Dict String

abbrev pub value_or_empty : Option String → String
value_or_empty none = ""
value_or_empty (some v) = v

-- `Header.Get`
unfoldable pub header : String → Request → String
header name request = value_or_empty (lookup name request.headers)
