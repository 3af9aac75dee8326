-- ===== src/Guards.antt =====
-- The guards of core/security/middleware/middleware.go, each as what it does with a request: it
-- refuses it, or calls the next handler. What net.SplitHostPort, strings.ToLower and the check of a
-- token of core/security/auth return are parameters.
pub mod Hosts
pub mod Limit
pub mod Tests
use Prim.Native.Char.{code}
use framework_kyrux.Prelude.{
  ℕ, String, Bool, true, false, List, [], ◌∷◌, Option, none, some, ◌==◌, ◌&&◌, ◌||◌, not, str_eq,
  if◌then◌else◌, ◌<>◌,
}
use framework_kyrux.Prelude.Dict.{Dict, insert, lookup}
use framework_kyrux.Prelude.Texts.{cut, strip_prefix, trim, is_empty_text}
use framework_kyrux.Web.{Request, header}
use framework_kyrux.Session.{Session, Store, from_request}

-- What a guard does: it calls the next handler, with what it puts into the context, or answers.
pub data Ruling {ℓ} (A : Type ℓ) : Type ℓ where
  next : A → Ruling A
  refused : ℕ → Ruling A
  redirected : String → Ruling A

is_bracket : ℕ → Bool
is_bracket c = c == b'[' || c == b']'

trim_start_brackets : String → String
unfolding is_bracket
trim_start_brackets String.[] = String.[]
trim_start_brackets (String.◌∷◌ c s) =
    let rest = trim_start_brackets s in if is_bracket (code c) then rest else String.◌∷◌ c s

trim_end_brackets : String → String
unfolding is_bracket
trim_end_brackets String.[] = String.[]
trim_end_brackets (String.◌∷◌ c s) =
    let rest = trim_end_brackets s in
    if is_bracket (code c) && is_empty_text rest then String.[] else String.◌∷◌ c rest

-- strings.Trim(s, "[]")
unfoldable pub trim_brackets : String → String
unfolding trim_start_brackets trim_end_brackets
trim_brackets s = trim_end_brackets (trim_start_brackets s)

-- The header that SetTrustedProxyHeader chose, or "".
abbrev pub ProxyHeader : Type 0
ProxyHeader = String

-- The text before the first comma of the proxy's header.
unfoldable pub first_of : String → String
first_of v = elim (cut b',' v) [ none ↦ trim v | some (before, _) ↦ trim before ]

-- The loop over the allowed hosts: whether it met "*", and the hosts before it.
unfoldable pub allowed_of : (String → String) → List String → Bool × List String
allowed_of to_lower [] = (false, [])
allowed_of to_lower (h ∷ hs) =
    let rest = allowed_of to_lower hs in
    if str_eq h "*" then (true, []) else (rest.0, to_lower h ∷ rest.1)

unfoldable pub has_host : String → List String → Bool
has_host host [] = false
has_host host (h ∷ hs) = str_eq h host || has_host host hs

module _ (split_host_port : String → Option String) where
  unfoldable pub client_ip : String → String
  unfolding trim_brackets
  client_ip remote_addr = elim (split_host_port remote_addr) [
    | some host ↦ host
    | none ↦ trim_brackets remote_addr
  ]

  unfoldable pub is_localhost : String → Bool
  unfolding client_ip
  is_localhost remote_addr =
      str_eq (client_ip remote_addr) "127.0.0.1" || str_eq (client_ip remote_addr) "::1"

  unfoldable pub real_ip : ProxyHeader → Request → String
  unfolding client_ip first_of header
  real_ip proxy request =
      let direct = client_ip request.remote_addr in
      let forwarded = first_of (header proxy request) in
      if str_eq proxy "" || str_eq (header proxy request) ""
      then direct
      else if str_eq forwarded ""
      then direct
      else forwarded

  -- LocalhostOnly and LocalhostOnlyHandler
  unfoldable pub localhost_only : Request → Ruling {0} Unit
  unfolding is_localhost
  localhost_only request = if is_localhost request.remote_addr then next tt else refused 403

  unfoldable pub request_host : (String → String) → Request → String
  request_host to_lower request =
      to_lower
        (trim_brackets (elim (split_host_port request.host) [ some h ↦ h | none ↦ request.host ]))

  unfoldable pub allowed_hosts : (String → String) → List String → Bool → Request → Ruling {0} Unit
  unfolding allowed_of has_host request_host
  allowed_hosts to_lower hosts debug request =
      if debug || (allowed_of to_lower hosts).0
      then next tt
      else if has_host (request_host to_lower request) (allowed_of to_lower hosts).1
      then next tt
      else refused 400

-- `validate` is ValidateToken: the claims of a token, or `none`.
unfoldable pub require_auth {ℓ} : {C : Type ℓ} → (String → Option C) → Request → Ruling C
unfolding header
require_auth validate request = elim (strip_prefix "Bearer " (header "Authorization" request)) [
  | none ↦ refused 401
  | some token ↦
      if str_eq token ""
      then refused 401
      else (elim (validate token) [ none ↦ refused 401 | some claims ↦ next claims ])
]

-- RequireLogin: `encode` puts the parameter `next` into the address of the login. The session is
-- put into the context.
unfoldable pub require_login {ℓ} :
    {A : Type ℓ}
    → (String → String → String)
    → Bool
    → String
    → Option String
    → ℕ
    → Store A
    → Request
    → Ruling (Option (Session A))
require_login encode db_enabled login_url cookie now store request =
    if not db_enabled then next none else (elim (from_request cookie now store) [
      | none ↦ redirected (encode login_url request.uri)
      | some session ↦ next (some session)
    ])

-- CORS: the headers of the response, and whether the next handler is called.
unfoldable pub is_allowed_origin : String → List String → Bool
is_allowed_origin origin [] = false
is_allowed_origin origin (o ∷ os) = str_eq o origin || is_allowed_origin origin os

unfoldable pub cors : List String → Request → Dict String → Dict String × Ruling {0} Unit
unfolding header is_allowed_origin
cors allowed request headers =
    let origin = header "Origin" request in
    let opened =
      if is_allowed_origin origin allowed
      then insert "Vary" "Origin" (insert "Access-Control-Allow-Origin" origin headers)
      else headers in
    if str_eq request.method "OPTIONS"
    then (
      insert "Access-Control-Max-Age" "86400" (
          insert "Access-Control-Allow-Headers" "Content-Type, Authorization, X-CSRF-Token" (
            insert "Access-Control-Allow-Methods" "GET, POST, PUT, PATCH, DELETE, OPTIONS" opened)),
      refused 204,
    )
    else (opened, next tt)

abbrev pub default_csp : String
default_csp =
    "default-src 'self'; script-src 'self'; style-src 'self' 'unsafe-inline'; img-src 'self' data:"

-- SetCSP: the policy after it.
unfoldable pub set_csp : String → String → String
set_csp policy current = if str_eq policy "" then current else policy

unfoldable pub static_secure_headers : List (String × String)
static_secure_headers =
    ("Strict-Transport-Security", "max-age=63072000; includeSubDomains; preload")
    ∷ ("X-Content-Type-Options", "nosniff")
    ∷ ("X-Frame-Options", "DENY")
    ∷ ("Referrer-Policy", "strict-origin-when-cross-origin")
    ∷ ("Permissions-Policy", "camera=(), microphone=(), geolocation=(), payment=()")
    ∷ ("X-Permitted-Cross-Domain-Policies", "none")
    ∷ []

unfoldable pub set_all : List (String × String) → Dict String → Dict String
set_all [] headers = headers
set_all ((k, v) ∷ kvs) headers = set_all kvs (insert k v headers)

unfoldable pub secure_headers : String → Dict String → Dict String
unfolding set_all static_secure_headers
secure_headers policy headers =
    insert "Content-Security-Policy" policy (set_all static_secure_headers headers)

unfoldable pub csp_override : String → Dict String → Dict String
csp_override policy headers = insert "Content-Security-Policy" policy headers
