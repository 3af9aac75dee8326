-- ===== src/Router/Serving.antt =====
-- The registration of routes, the chain of middlewares, and the writer that intercepts the answers
-- of the mux (core/router/router.go, urls.go). Handlers are of any type; the mux of net/http is the
-- list of what was registered in it, and its own answers are a list of actions.
pub mod Registration
pub mod Interception
pub mod Tests
use framework_kyrux.Prelude.{
  ℕ, String, Bool, true, false, List, [], ◌∷◌, ◌++◌, map, Option, none, some, ◌==◌, ◌&&◌, ◌||◌, not,
  str_eq, if◌then◌else◌, ◌<>◌,
}
use framework_kyrux.Prelude.Dict.{Dict, insert, lookup}
use framework_kyrux.Router.Params.{
  convert_pattern, extract_param_names, display_path, normalize, slash_alternate,
}

unfoldable pub is_member : String → List String → Bool
is_member k [] = false
is_member k (x ∷ xs) = str_eq x k || is_member k xs

-- What is registered in the mux for a pattern: the handler with its middlewares, and the names of
-- the parameters that it reads.
pub record MuxEntry {ℓ} (H : Type ℓ) : Type ℓ where
  pub pattern : String
  pub chained : H
  pub param_names : List String

-- Router; the sets of patterns are lists.
pub record Router {ℓ} (H : Type ℓ) : Type ℓ where
  pub mux : List (MuxEntry H)
  pub middlewares : List (H → H)
  pub routes : List String
  pub internals : List String
  pub registered : List String

module _ {ℓ} {H : Type ℓ} where
  unfoldable pub new_router : Router H
  new_router = record { mux = []; middlewares = []; routes = []; internals = []; registered = [] }

  unfoldable pub use_middleware : (H → H) → Router H → Router H
  use_middleware m r = record r { middlewares = r.middlewares ++ m ∷ [] }

  -- The first middleware is the outermost.
  unfoldable pub chain_with : List (H → H) → H → H
  chain_with [] h = h
  chain_with (m ∷ ms) h = m (chain_with ms h)

  unfoldable pub register_mux : MuxEntry H → Router H → Router H
  unfolding is_member
  register_mux e r =
      if is_member e.pattern r.registered
      then r
      else record r { mux = r.mux ++ e ∷ []; registered = e.pattern ∷ r.registered }

  unfoldable pub handle : String → H → Router H → Router H
  unfolding chain_with register_mux
  handle pattern h r =
      let compiled = normalize (convert_pattern pattern) in
      let entry : MuxEntry H = record {
        pattern = compiled;
        chained = chain_with r.middlewares h;
        param_names = extract_param_names compiled;
      } in
      let first = register_mux entry (record r { routes = compiled ∷ r.routes }) in
      if str_eq (slash_alternate compiled) ""
      then first
      else register_mux (record entry { pattern = slash_alternate compiled }) first

  -- Internal
  unfoldable pub handle_internal : String → H → Router H → Router H
  unfolding handle
  handle_internal pattern h r =
      handle pattern h (record r { internals = normalize (convert_pattern pattern) ∷ r.internals })

  unfoldable pub has_route : String → Router H → Bool
  has_route pattern r = is_member (normalize (convert_pattern pattern)) r.routes

-- The parameters of a request: `path_value` is what the mux matched for a name.
unfoldable pub params_of : (String → String) → List String → Dict String
params_of path_value [] = []
params_of path_value (n ∷ ns) = insert n (path_value n) (params_of path_value ns)

-- URLPattern, with its method and its path
pub record UrlPattern {ℓ} (H : Type ℓ) : Type ℓ where
  pub method : String
  pub path : String
  pub view : H
  pub name : String

-- Include: the router, and the names of the routes with the paths that Resolve shows.
unfoldable pub include {ℓ} :
    {H : Type ℓ} → List (UrlPattern H) → Router H × Dict String → Router H × Dict String
unfolding handle
include [] st = st
include (p ∷ ps) (r, names) = include ps (
  handle (p.method <> (" " <> p.path)) p.view r,
  if str_eq p.name "" then names else insert p.name (display_path (convert_pattern p.path)) names,
)

unfoldable pub resolve : String → Dict String → String
resolve name names = elim (lookup name names) [ none ↦ "#" | some path ↦ path ]

-- What reaches the client: a header, a part of a body, or a page of core/errors.
pub data Sent : Type 0 where
  header page : ℕ → Sent
  body : String → Sent

-- What the mux does with the writer: it runs a registered handler, or writes.
pub data Action : Type 0 where
  runs_handler : Action
  writes_header : ℕ → Action
  writes : String → Action

-- codeWriter, with what it passed on
pub record CodeWriter : Type 0 where
  pub status : ℕ
  pub handler_ran : Bool
  pub intercepted : Bool
  pub sent : List Sent

unfoldable pub is_missing : ℕ → Bool
is_missing status = status == 404 || status == 405

-- WriteHeader, Write, and the mark that a handler ran
unfoldable pub act : Action → CodeWriter → CodeWriter
unfolding is_missing
act runs_handler w = record w { handler_ran = true }
act (writes_header status) w =
    if w.handler_ran || not (is_missing status)
    then record w { status = status; sent = w.sent ++ header status ∷ [] }
    else record w { status = status; intercepted = true }
act (writes text) w = if w.intercepted then w else record w { sent = w.sent ++ body text ∷ [] }

unfoldable pub act_all : List Action → CodeWriter → CodeWriter
unfolding act
act_all [] w = w
act_all (a ∷ rest) w = act_all rest (act a w)

abbrev pub new_writer : CodeWriter
new_writer = record { status = 0; handler_ran = false; intercepted = false; sent = [] }

-- ServeHTTP, for what the mux does: what reaches the client.
unfoldable pub serve_http : List Action → List Sent
unfolding act_all
serve_http actions =
    let w = act_all actions new_writer in
    if is_missing w.status && not w.handler_ran then w.sent ++ page w.status ∷ [] else w.sent
