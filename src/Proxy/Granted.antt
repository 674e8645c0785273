-- ===== src/Proxy/Granted.antt =====
-- console/internal/grpcserver/proxy_routes.go with api/proxytoken/token.go: the token that the console
-- hands out, at the worker.
use onlyboxes.Prelude.{
  ℕ, ◌+◌, ◌≡◌, refl, subst, Bool, true, false, ◌||◌, not, Option, none, some, [], Text, length,
  trim_space, is_empty, text_eq, ltb, leb, if_cases, pos, min,
}
use onlyboxes.Session.Defs.{CommandOutcome}
use onlyboxes.Session.Defs as SessionDefs
use onlyboxes.Dispatch.Defs.{
  Worker, Service, pause, get_session, worker_at, pick_session_for_node_and_capability,
}
use onlyboxes.Dispatch.Defs as DispatchDefs
use onlyboxes.Dispatch.Route.{World}
use onlyboxes.Dispatch.Attempt.{
  Delivery, AttemptResult, dispatch_command_attempt, is_session_not_found,
}
use onlyboxes.Proxy.Token
use onlyboxes.Proxy.Token.{
  Crypto, utf8, is_valid_utf8, ok, err, max_token_length, sign, verify, is_expired,
}
use onlyboxes.Proxy.Signed.{IsLawful, verify-sign}
use onlyboxes.Proxy.Endpoint.{task_capability_terminal_proxy, Url}
use onlyboxes.Proxy.Access.{
  proxy_route_token_ttl, Access, granted, denied, Authorization, Answers, session_supports_proxy,
  proxy_terminal_session_worker, direct_url, direct_resolved, direct_outcome, direct_attempted,
  direct_picked, direct_encoded, token_signed, claims_for, authorize_found, authorize_mapped,
  authorize_proxy_route,
}

-- The token opens the port of the session at the worker whose session is listed under the worker's id.
pub record IsOpened (service : Service) (crypto : Crypto) (worker_id token : Text) (later : ℕ)
    (claims : Token.Claims) : Type 0 where
  pub worker : Worker
  pub listed : worker_at service (get_session service worker_id) ≡ some worker
  pub verified : verify crypto worker.route_token_key token later ≡ ok claims

-- Any token that is granted opens the route.
abbrev Opened : Service → Crypto → Text → ℕ → Token.Claims → Access Authorization → Type 0
Opened s crypto worker_id later claims (granted a) =
    is_empty a.token ≡ false
    → ltb max_token_length (length (utf8 a.token)) ≡ false
    → IsOpened s crypto worker_id a.token later claims
Opened s crypto worker_id later claims (denied e) = Unit

module _ (w : World) (d : Delivery) (answers : Answers) (crypto : Crypto) (lawful : IsLawful crypto)
    (worker_id scoped : Text) (port route_expires now later : ℕ)
    (live : leb (min (now + proxy_route_token_ttl) route_expires) later ≡ false)
    (worker_utf8 : is_valid_utf8 worker_id ≡ true)
    (session_utf8 : is_valid_utf8 scoped ≡ true) where
  abbrev claims : Token.Claims
  claims = claims_for worker_id scoped port route_expires now

  abbrev Opens : Service → Access Authorization → Type 0
  Opens s = Opened s crypto worker_id later claims

  abbrev Yields : Service × Access Authorization → Type 0
  Yields x = Opens x.0 x.1

  direct_url-Opens :
      (s : Service) (upstream traffic : Text) (o : Option Url)
      → Opens s (direct_url w d answers crypto upstream traffic o)
  direct_url-Opens s upstream traffic none = tt
  direct_url-Opens s upstream traffic (some u) = λ h k. absurd (cc h)

  resolved-Opens :
      (s : Service) (o : Option (Text × Text)) → Opens s (direct_resolved w d answers crypto o)
  resolved-Opens s none = tt
  resolved-Opens s (some (url, traffic)) = direct_url-Opens s (trim_space url) traffic _

  outcome-Opens :
      (s : Service) (o : CommandOutcome) (e : Option SessionDefs.Error)
      → Opens s (direct_outcome w d answers crypto o e)
  outcome-Opens s o none = resolved-Opens s (answers.decode_resolved o.payload_json)
  outcome-Opens s o (some e) =
      if_cases (Opens s) (is_session_not_found (some e)) _ _ (λ _. tt) (λ _. tt)

  attempted-Yields :
      (x : Service × DispatchDefs.Result AttemptResult)
      → Yields (direct_attempted w d answers crypto x)
  attempted-Yields (s, DispatchDefs.err e) = tt
  attempted-Yields (s, DispatchDefs.ok a) = outcome-Opens s a.outcome a.outcome.err

  picked-Yields :
      (x : Service × DispatchDefs.Result ℕ) (node : Text)
      → Yields (direct_picked w d answers crypto x node)
  picked-Yields (s, DispatchDefs.err e) node = tt
  picked-Yields (s, DispatchDefs.ok i) node =
      attempted-Yields
        (dispatch_command_attempt w d task_capability_terminal_proxy [] node 0 (pause w.gap s) i)

  encoded-Yields :
      (s : Service) (node : Text) (o : Option Text)
      → Yields (direct_encoded w d answers crypto s node o)
  encoded-Yields s node none = tt
  encoded-Yields s node (some payload) =
      picked-Yields (pick_session_for_node_and_capability s node task_capability_terminal_proxy)
        node

  signed-Opens :
      (s : Service) (x : Worker) (r : Token.Result Text)
      → worker_at s (get_session s worker_id) ≡ some x
      → sign crypto x.route_token_key claims ≡ r
      → Opens s (token_signed w d answers crypto x r)
  signed-Opens s x (err e) l h = tt
  signed-Opens s x (ok token) l h = λ given short. record {
    worker = x;
    listed = l;
    verified =
        verify-sign crypto x.route_token_key claims token later lawful worker_utf8 session_utf8 h
          short (unfold is_expired in live);
  }

  found-Yields :
      (s : Service) (o : Option Worker)
      → worker_at s (get_session s worker_id) ≡ o
      → Yields (authorize_found w d answers crypto s worker_id scoped port route_expires now o)
  found-Yields s none l = tt
  found-Yields s (some x) l =
      if_cases Yields (not (session_supports_proxy (some x))) _ _ (λ _. tt)
        (λ _.
          if_cases Yields (not (is_empty x.proxy_direct)) _ _
            (λ _. encoded-Yields s x.node_id (answers.encode_resolve scoped port))
            (λ _. signed-Opens s x (sign crypto x.route_token_key claims) l refl))

  mapped-Yields :
      (x : Service × Option Text)
      → Yields (authorize_mapped w d answers crypto worker_id scoped port route_expires now x)
  mapped-Yields (s, none) = tt
  mapped-Yields (s, some mapped) =
      let t = pause w.gap s in
      if_cases Yields (text_eq mapped worker_id) _ _
        (λ _. found-Yields t (worker_at t (get_session t worker_id)) refl) (λ _. tt)

authorize_proxy_route-Opens :
    (w : World) (d : Delivery) (answers : Answers) (crypto : Crypto) (lawful : IsLawful crypto)
    → (enabled : Bool) (s : Service) (worker_id scoped : Text) (port route_expires now later : ℕ)
      (live : leb (min (now + proxy_route_token_ttl) route_expires) later ≡ false)
      (wu : is_valid_utf8 (trim_space worker_id) ≡ true)
      (su : is_valid_utf8 (trim_space scoped) ≡ true)
    → Yields w d answers crypto lawful
        (trim_space worker_id)
        (trim_space scoped)
        port
        route_expires
        now
        later
        live
        wu
        su
        (authorize_proxy_route w d answers crypto enabled s worker_id scoped port route_expires now)
unfolding authorize_proxy_route
authorize_proxy_route-Opens w d answers crypto lawful enabled s worker_id scoped port route_expires
      now later live wu su =
    let Y =
      Yields w d answers crypto lawful (trim_space worker_id) (trim_space scoped) port route_expires
        now later live wu su in
    if_cases Y (not enabled) _ _ (λ _. tt)
      (λ _.
        if_cases Y
          (is_empty (trim_space worker_id)
            || is_empty (trim_space scoped)
            || ltb port 1
            || ltb 65535 port)
          _ _ (λ _. tt)
          (λ _.
            if_cases Y (leb route_expires now) _ _ (λ _. tt)
              (λ _.
                mapped-Yields w d answers crypto lawful (trim_space worker_id) (trim_space scoped)
                  port route_expires now later live wu su
                  (proxy_terminal_session_worker w s (trim_space scoped) now))))

-- Where base64, JSON and HMAC keep what their documentation says, and the ids of the worker and of the
-- session are valid UTF-8: a token that is granted for a route of the proxy, if it is not empty and not
-- longer than the 4096 bytes that are read, is verified under the key of the worker whose session the
-- service lists under the worker's id when it is granted, and gives the worker and the session, without
-- white space around them, and the port, until it expires: when the route does, and 15 seconds after
-- it was granted at the latest.
pub authorize_proxy_route-IsOpened :
    (w : World) (d : Delivery) (answers : Answers) (crypto : Crypto)
    → IsLawful crypto
    → (enabled : Bool) (s t : Service) (worker_id scoped : Text) (port route_expires now later : ℕ)
      (a : Authorization)
    → is_valid_utf8 (trim_space worker_id) ≡ true
    → is_valid_utf8 (trim_space scoped) ≡ true
    → authorize_proxy_route w d answers crypto enabled s worker_id scoped port route_expires now
      ≡ (t, granted a)
    → is_empty a.token ≡ false
    → ltb max_token_length (length (utf8 a.token)) ≡ false
    → leb (min (now + proxy_route_token_ttl) route_expires) later ≡ false
    → IsOpened t crypto (trim_space worker_id) a.token later (record {
      worker_id = trim_space worker_id;
      session_id = trim_space scoped;
      port = pos port;
      expires_at = pos (min (now + proxy_route_token_ttl) route_expires);
    })
authorize_proxy_route-IsOpened w d answers crypto lawful enabled s t worker_id scoped port
      route_expires now later a wu su h given short live =
    subst
      (Yields w d answers crypto lawful (trim_space worker_id) (trim_space scoped) port
        route_expires now later live wu su)
      h
      (authorize_proxy_route-Opens w d answers crypto lawful enabled s worker_id scoped port
        route_expires now later live wu su)
      given short
