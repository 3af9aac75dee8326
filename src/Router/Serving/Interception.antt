-- ===== src/Router/Serving/Interception.antt =====
-- What the client gets of the answers of the mux and of the handlers.
use framework_kyrux.Prelude.{
  ℕ, ◌≡◌, refl, sym, ap, ◌∙◌, String, true, false, List, [], ◌∷◌, ◌++◌, map, arith, ◌&&◌, not,
  if◌then◌else◌, Bool-cases, inl, inr,
}
use mathlib.Core.List.{append-nil, append_assoc}
use framework_kyrux.Router.Serving.{
  Sent, header, page, body, Action, runs_handler, writes_header, writes, CodeWriter, is_missing,
  act, act_all, new_writer, serve_http,
}

-- What a handler writes, without the router between.
unfoldable pub direct : List Action → List Sent
direct [] = []
direct (runs_handler ∷ rest) = direct rest
direct (writes_header status ∷ rest) = header status ∷ direct rest
direct (writes text ∷ rest) = body text ∷ direct rest

-- The writer of a handler, one that has intercepted, and one of the mux that passes its body on.
abbrev handling : ℕ → List Sent → CodeWriter
handling status sent = record {
  status = status;
  handler_ran = true;
  intercepted = false;
  sent = sent;
}

abbrev muted : ℕ → CodeWriter
muted status = record { status = status; handler_ran = false; intercepted = true; sent = [] }

abbrev passing : ℕ → List Sent → CodeWriter
passing status sent = record {
  status = status;
  handler_ran = false;
  intercepted = false;
  sent = sent;
}

act_all-direct :
    (actions : List Action) (status : ℕ) (sent : List Sent)
    → ((act_all actions (handling status sent)).sent ≡ sent ++ direct actions)
      × ((act_all actions (handling status sent)).handler_ran ≡ true)
unfolding act_all act direct
act_all-direct [] status sent = (sym (append-nil sent), refl)
act_all-direct (runs_handler ∷ rest) status sent = act_all-direct rest status sent
act_all-direct (writes_header code ∷ rest) status sent =
    let (same, ran) = act_all-direct rest code (sent ++ header code ∷ []) in
    (same ∙ append_assoc sent (header code ∷ []) (direct rest), ran)
act_all-direct (writes text ∷ rest) status sent =
    let (same, ran) = act_all-direct rest status (sent ++ body text ∷ []) in
    (same ∙ append_assoc sent (body text ∷ []) (direct rest), ran)

act_all-muted :
    (texts : List String) (status : ℕ) → act_all (map writes texts) (muted status) ≡ muted status
unfolding act_all act
act_all-muted [] status = refl
act_all-muted (t ∷ texts) status = act_all-muted texts status

act_all-passing :
    (texts : List String) (status : ℕ) (sent : List Sent)
    → act_all (map writes texts) (passing status sent) ≡ passing status (sent ++ map body texts)
unfolding act_all act
act_all-passing [] status sent = ap (passing status) (sym (append-nil sent))
act_all-passing (t ∷ texts) status sent =
    act_all-passing texts status (sent ++ body t ∷ [])
    ∙ ap (passing status) (append_assoc sent (body t ∷ []) (map body texts))

-- What ServeHTTP does when the mux has written.
abbrev closed : CodeWriter → List Sent
closed w = if is_missing w.status && not w.handler_ran then w.sent ++ page w.status ∷ [] else w.sent

act-missing :
    (status : ℕ) → is_missing status ≡ true → act (writes_header status) new_writer ≡ muted status
unfolding act
act-missing status e = rw (e, act) refl

act-present :
    (status : ℕ)
    → is_missing status ≡ false
    → act (writes_header status) new_writer ≡ passing status (header status ∷ [])
unfolding act
act-present status e = rw (e, act) refl

-- A request that reaches a registered handler gets what the handler writes, its own 404 and 405
-- included. An answer of the mux itself, a status and a body in parts, reaches the client as it
-- is, unless the status is 404 or 405: then the client gets the page of core/errors for that
-- status, and nothing of the mux.
pub serve_http_answers :
    (actions : List Action) (status : ℕ) (texts : List String)
    → (serve_http (runs_handler ∷ actions) ≡ direct actions)
      × (serve_http (writes_header status ∷ map writes texts)
          ≡ (if is_missing status then page status ∷ [] else header status ∷ map body texts))
unfolding serve_http act_all act
serve_http_answers actions status texts = (handled, missing)
  where
    finish :
        (w : CodeWriter)
        → w.handler_ran ≡ true
        → (if is_missing w.status && not w.handler_ran
            then w.sent ++ page w.status ∷ []
            else w.sent)
          ≡ w.sent
    finish w ran = ground arith

    handled : serve_http (runs_handler ∷ actions) ≡ direct actions
    handled =
        let (sent, ran) = act_all-direct actions 0 [] in
        finish (act_all actions (handling 0 [])) ran ∙ sent

    missing :
        serve_http (writes_header status ∷ map writes texts)
        ≡ (if is_missing status then page status ∷ [] else header status ∷ map body texts)
    missing = elim (Bool-cases (is_missing status)) [
      | inl e ↦
          ap (λ w. closed (act_all (map writes texts) w)) (act-missing status e)
          ∙ ap closed (act_all-muted texts status)
          ∙ rw e refl
      | inr e ↦
          ap (λ w. closed (act_all (map writes texts) w)) (act-present status e)
          ∙ ap closed (act_all-passing texts status (header status ∷ []))
          ∙ rw e refl
    ]
