-- ===== src/Guards/Tests.antt =====
-- Runs of the guards, and the theorems at some requests.
use framework_kyrux.Prelude.{
  ℕ, ◌≤◌, ◌≡◌, refl, ◌↔◌, ◌⊎◌, String, true, false, List, [], ◌∷◌, Option, none, some, arith,
  str_eq, if◌then◌else◌, dec_text, is_space,
}
use framework_kyrux.Prelude.Dict.{lookup, insert, keep}
use framework_kyrux.Prelude.Texts.{cut, strip_prefix, trim, trim_start, trim_end}
use framework_kyrux.Web.{header}
use framework_kyrux.Csrf.Tests.{visit}
use framework_kyrux.Guards.{
  next, refused, trim_brackets, client_ip, is_localhost, localhost_only, first_of, real_ip,
  request_host, allowed_of, has_host, allowed_hosts, require_auth,
}
use framework_kyrux.Guards.Hosts.{HasStar, IsListed, allowed_hosts_iff}
use framework_kyrux.Guards.Limit.{Limiter, new_limiter, rate_limit, sweep_entries, hit}
use framework_kyrux.Guards.Limit.Bound.{let_through, let_through_bounded}

-- Splits what these tests use: an address with a port of four digits.
abbrev split : String → Option String
split s = if str_eq s "[::1]:8000" then some "::1" else if str_eq s "a:8000" then some "a" else none

abbrev same : String → String
same s = s

local_passes : localhost_only split (record visit { remote_addr = "[::1]:8000" }) ≡ next tt
unfolding localhost_only is_localhost client_ip
local_passes = refl

proxied :
    real_ip split "X-Forwarded-For" (record visit { headers = ("X-Forwarded-For", "a, b") ∷ [] })
    ≡ "a"
unfolding real_ip first_of header cut trim trim_start trim_end client_ip lookup dec_text is_space
proxied = refl

unknown_host_refused :
    allowed_hosts split same ("b" ∷ []) false (record visit { host = "a:8000" }) ≡ refused 400
unfolding allowed_hosts allowed_of has_host request_host trim_brackets
unknown_host_refused = refl

no_token_refused :
    require_auth
      (λ token. some token)
      (record visit { headers = ("Authorization", "Bearer ") ∷ [] })
    ≡ refused 401
unfolding require_auth header lookup strip_prefix dec_text
no_token_refused = refl

allowed_hosts_iff_example :
    (allowed_hosts split same ("b" ∷ "a" ∷ []) false (record visit { host = "a:8000" }) ≡ next tt)
    ↔ ((false ≡ true)
        ⊎ HasStar ("b" ∷ "a" ∷ [])
        ⊎ IsListed same
            (request_host split same (record visit { host = "a:8000" }))
            ("b" ∷ "a" ∷ []))
allowed_hosts_iff_example =
    allowed_hosts_iff same split ("b" ∷ "a" ∷ []) false (record visit { host = "a:8000" })

-- Two requests in 60 seconds; the limiter opens its first window at 10.
abbrev opened : Limiter
opened = new_limiter 0

abbrev requests : List (ℕ × String)
requests = (10, "a") ∷ (11, "b") ∷ (12, "a") ∷ (13, "a") ∷ (70, "a") ∷ []

third_refused : let_through 1 2 60 "a" requests opened ≡ 2
unfolding let_through rate_limit sweep_entries hit new_limiter lookup insert keep dec_text
third_refused = refl

let_through_bounded_example : let_through 1 2 60 "a" requests opened ≤ 4
unfolding new_limiter
let_through_bounded_example = let_through_bounded 1 2 60 10 "a" requests opened tt (
  (omega arith, omega arith),
  (
    (omega arith, omega arith),
    ((omega arith, omega arith), ((omega arith, omega arith), ((omega arith, omega arith), tt))),
  ),
)
