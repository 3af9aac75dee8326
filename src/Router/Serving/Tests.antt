-- ===== src/Router/Serving/Tests.antt =====
-- Runs of the router, and the theorems at some routes and answers.
use framework_kyrux.Prelude.{ℕ, ◌+◌, ◌*◌, ◌≡◌, refl, String, List, [], ◌∷◌, map}
use framework_kyrux.Router.Serving.{
  header, page, body, Action, runs_handler, writes_header, writes, is_missing, serve_http,
  new_router, chain_with,
}
use framework_kyrux.Router.Serving.Registration.{
  Call, uses, handles, handles_internal, call_all, IsRegistered, new_router-IsRegistered,
}
use framework_kyrux.Router.Serving.Interception.{direct, serve_http_answers}

-- A route with two spellings, and one of the framework.
abbrev calls : List (Call ℕ)
calls =
    uses (λ h. h + 1)
    ∷ handles "GET /users/" 3
    ∷ handles "GET /users" 4
    ∷ handles_internal "GET /<id:int>" 5
    ∷ []

new_router-IsRegistered_example : IsRegistered (call_all calls new_router)
new_router-IsRegistered_example = new_router-IsRegistered calls

-- The first middleware is the outermost.
chained : chain_with ((λ h. h + 1) ∷ (λ h. h * 2) ∷ []) 3 ≡ 7
unfolding chain_with
chained = refl

abbrev actions : List Action
actions = writes_header 404 ∷ writes "no such user" ∷ []

abbrev texts : List String
texts = "404 page not found" ∷ []

serve_http_answers_example :
    (serve_http (runs_handler ∷ actions) ≡ header 404 ∷ body "no such user" ∷ [])
    × (serve_http (writes_header 404 ∷ map writes texts) ≡ page 404 ∷ [])
unfolding direct is_missing
serve_http_answers_example = serve_http_answers actions 404 texts
