-- ===== src/Proxy/Access.antt =====
-- console/internal/grpcserver/proxy_routes.go: which worker a session's proxy route leads to, and the
-- token that opens it. `Answers` are encoding/json and net/url.
use onlyboxes.Prelude.{
  ℕ, ◌+◌, Bool, false, ◌&&◌, ◌||◌, not, Option, none, some, List, [], ◌++◌, Text, codes, trim_space,
  is_empty, text_eq, ltb, leb, ◌==◌, if◌then◌else◌, pos, min,
}
use onlyboxes.Session.Defs.{CommandOutcome, has_capability}
use onlyboxes.Session.Defs as SessionDefs
use onlyboxes.Session.Recovery.{task_capability_terminal_exec}
use onlyboxes.OwnerScope.Ids.{scope_terminal_session_id}
use onlyboxes.Routes.Defs.{Route}
use onlyboxes.Routes.Commit.{terminal_session_route_snapshot}
use onlyboxes.Routes.Sweep.{maybe_prune_terminal_session_routes}
use onlyboxes.Dispatch.Defs.{
  Worker, Service, pause, get_session, worker_at, pick_session_for_node_and_capability,
}
use onlyboxes.Dispatch.Defs as DispatchDefs
use onlyboxes.Dispatch.Route.{World, set_routes, is_ready_state}
use onlyboxes.Dispatch.Attempt.{
  Delivery, AttemptResult, dispatch_command_attempt, is_session_not_found,
}
use onlyboxes.Proxy.Token
use onlyboxes.Proxy.Token.{Crypto, ok, err, sign}
use onlyboxes.Proxy.Endpoint.{task_capability_terminal_proxy, Url, validate_direct_proxy_url}

-- `proxyRouteTokenTTL`
abbrev pub proxy_route_token_ttl : ℕ
proxy_route_token_ttl = 15000

pub data AccessError : Type 0 where
  session_not_found worker_unavailable encode_failed : AccessError
  sign_failed : Token.Error → AccessError

pub data Access {ℓ} (A : Type ℓ) : Type ℓ where
  granted : A → Access A
  denied : AccessError → Access A

pub record Target : Type 0 where
  pub worker_id : Text
  pub scoped_session_id : Text

pub record Authorization : Type 0 where
  pub upstream : Text
  pub upstream_host : Text
  pub token : Text
  pub traffic_token : Text

pub record Answers : Type 0 where
  pub encode_resolve : Text → ℕ → Option Text
  pub decode_resolved : Text → Option (Text × Text)
  pub parse_url : Text → Option Url
  pub allowed_direct_domains : List Text

unfoldable pub session_supports_proxy : Option Worker → Bool
session_supports_proxy none = false
session_supports_proxy (some w) =
    has_capability w.session task_capability_terminal_exec
    && ((not (is_empty (trim_space w.proxy_endpoint)) && not (is_empty w.route_token_key))
        || (not (is_empty (trim_space w.proxy_direct))
            && has_capability w.session task_capability_terminal_proxy))

abbrev pub proxy_node : Option Route → Option Text
proxy_node none = none
proxy_node (some r) =
    if not (r.reservation_id == 0)
      || not (is_ready_state r.recovery_state)
      || is_empty (trim_space r.node_id)
    then none
    else some r.node_id

unfoldable pub proxy_terminal_session_worker : World → Service → Text → ℕ → Service × Option Text
proxy_terminal_session_worker w s scoped_session_id now =
    let t =
      pause w.gap
        (set_routes s (maybe_prune_terminal_session_routes s.routes now (w.db s.pauses))) in
    let r = terminal_session_route_snapshot t.routes scoped_session_id now (w.db t.pauses) in
    (set_routes t r.0, proxy_node r.1)

abbrev pub target_found : World → Text → Service × Option Text → Service × Access Target
target_found w scoped (s, none) = (s, denied session_not_found)
target_found w scoped (s, some worker_id) =
    let t = pause w.gap s in
    if session_supports_proxy (worker_at t (get_session t worker_id))
    then (t, granted (record { worker_id = worker_id; scoped_session_id = scoped }))
    else (t, denied worker_unavailable)

unfoldable pub resolve_proxy_session :
    World → Bool → Service → Text → Text → ℕ → Service × Access Target
unfolding session_supports_proxy proxy_terminal_session_worker
resolve_proxy_session w proxy_enabled s owner_id external_session_id now =
    let scoped = scope_terminal_session_id owner_id external_session_id in
    if not proxy_enabled
    then (s, denied worker_unavailable)
    else if is_empty (trim_space scoped)
    then (s, denied session_not_found)
    else target_found w scoped (proxy_terminal_session_worker w s scoped now)

-- Times are milliseconds, and the token lives as long as the route, but 15 seconds at most.
abbrev pub claims_for : Text → Text → ℕ → ℕ → ℕ → Token.Claims
claims_for worker_id scoped port route_expires now = record {
  worker_id = worker_id;
  session_id = scoped;
  port = pos port;
  expires_at = pos (min (now + proxy_route_token_ttl) route_expires);
}

module _ (w : World) (d : Delivery) (answers : Answers) (crypto : Crypto) where
  abbrev pub direct_url : Text → Text → Option Url → Access Authorization
  direct_url upstream traffic none = denied worker_unavailable
  direct_url upstream traffic (some u) = granted (record {
    upstream = upstream;
    upstream_host = u.host;
    token = [];
    traffic_token = trim_space traffic;
  })

  abbrev pub direct_resolved : Option (Text × Text) → Access Authorization
  direct_resolved none = denied worker_unavailable
  direct_resolved (some (url, traffic)) =
      direct_url (trim_space url) traffic (
        validate_direct_proxy_url answers.parse_url (trim_space url) answers.allowed_direct_domains)

  abbrev pub direct_outcome : CommandOutcome → Option SessionDefs.Error → Access Authorization
  direct_outcome o none = direct_resolved (answers.decode_resolved o.payload_json)
  direct_outcome o (some e) =
      if is_session_not_found (some e) then denied session_not_found else denied worker_unavailable

  abbrev pub direct_attempted :
      Service × DispatchDefs.Result AttemptResult → Service × Access Authorization
  direct_attempted (s, DispatchDefs.err e) = (s, denied worker_unavailable)
  direct_attempted (s, DispatchDefs.ok a) = (s, direct_outcome a.outcome a.outcome.err)

  abbrev pub direct_picked : Service × DispatchDefs.Result ℕ → Text → Service × Access Authorization
  direct_picked (s, DispatchDefs.err e) node = (s, denied worker_unavailable)
  direct_picked (s, DispatchDefs.ok i) node =
      direct_attempted
        (dispatch_command_attempt w d task_capability_terminal_proxy [] node 0 (pause w.gap s) i)

  abbrev pub direct_encoded : Service → Text → Option Text → Service × Access Authorization
  direct_encoded s node none = (s, denied encode_failed)
  direct_encoded s node (some payload) =
      direct_picked (pick_session_for_node_and_capability s node task_capability_terminal_proxy)
        node

  abbrev pub token_signed : Worker → Token.Result Text → Access Authorization
  token_signed x (err e) = denied (sign_failed e)
  token_signed x (ok token) = granted (record {
    upstream = codes "http://" ++ x.proxy_endpoint;
    upstream_host = [];
    token = token;
    traffic_token = [];
  })

  abbrev pub authorize_found :
      Service → Text → Text → ℕ → ℕ → ℕ → Option Worker → Service × Access Authorization
  authorize_found s worker_id scoped port route_expires now none = (s, denied worker_unavailable)
  authorize_found s worker_id scoped port route_expires now (some x) =
      if not (session_supports_proxy (some x))
      then (s, denied worker_unavailable)
      else if not (is_empty x.proxy_direct)
      then direct_encoded s x.node_id (answers.encode_resolve scoped port)
      else (
        s,
        token_signed x
            (sign crypto x.route_token_key (claims_for worker_id scoped port route_expires now)),
      )

  abbrev pub authorize_mapped :
      Text → Text → ℕ → ℕ → ℕ → Service × Option Text → Service × Access Authorization
  authorize_mapped worker_id scoped port route_expires now (s, none) = (s, denied session_not_found)
  authorize_mapped worker_id scoped port route_expires now (s, some mapped) =
      let t = pause w.gap s in
      if text_eq mapped worker_id
      then authorize_found t worker_id scoped port route_expires now
          (worker_at t (get_session t worker_id))
      else (s, denied session_not_found)

  -- A port of 0 stands for one that is not positive.
  unfoldable pub authorize_proxy_route :
      Bool → Service → Text → Text → ℕ → ℕ → ℕ → Service × Access Authorization
  unfolding proxy_terminal_session_worker session_supports_proxy
  authorize_proxy_route proxy_enabled s given_worker_id given_scoped port route_expires now =
      let worker_id = trim_space given_worker_id in
      let scoped = trim_space given_scoped in
      if not proxy_enabled
      then (s, denied worker_unavailable)
      else if is_empty worker_id || is_empty scoped || ltb port 1 || ltb 65535 port
      then (s, denied session_not_found)
      else if leb route_expires now
      then (s, denied session_not_found)
      else authorize_mapped worker_id scoped port route_expires now
          (proxy_terminal_session_worker w s scoped now)
