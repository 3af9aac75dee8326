-- ===== src/Login/Redirect.antt =====
-- Where a login sends the browser (NextURL in core/security/auth/login.go). The parameter `next` of
-- the request is the empty text where it is absent.
use framework_kyrux.Prelude.{String, if◌then◌else◌, not, ◌||◌, str_eq}
use package.text.Mathlib.Text.{starts_with}

unfoldable pub next_url : String → String → String
next_url next fallback =
    if str_eq next ""
      || (not (starts_with next "/") || (starts_with next "//" || starts_with next "/\\"))
    then fallback
    else next
