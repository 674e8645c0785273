-- ===== src/Proxy/OpenedExample.antt =====
-- console/internal/grpcserver/proxy_routes.go: a route that is opened at the one worker there is.
use onlyboxes.Prelude.{
  ◌≡◌, refl, true, false, none, [], ◌∷◌, Text, codes, lower_code, text_eq, lookup, pos, trim_space,
  trim_left, trim_right, is_space, to_lower,
}
use onlyboxes.Session.Defs.{has_capability, normalize_capability}
use onlyboxes.Routes.Defs.{ready, runs, Routes}
use onlyboxes.Routes.Sweep.{maybe_prune_terminal_session_routes}
use onlyboxes.Routes.Commit.{terminal_session_route_snapshot, snapshot_found}
use onlyboxes.Dispatch.Defs.{Worker, Service, Gap, pause, get_session, deadline_exceeded}
use onlyboxes.Dispatch.Route.{World}
use onlyboxes.Dispatch.Attempt.{Delivery}
use onlyboxes.Proxy.Token.{utf8, is_valid_utf8, sign, validate_claims}
use onlyboxes.Proxy.Access.{
  Answers, Authorization, granted, session_supports_proxy, proxy_terminal_session_worker,
  authorize_proxy_route,
}
use onlyboxes.Proxy.Granted.{IsOpened, authorize_proxy_route-IsOpened}
use onlyboxes.Proxy.Examples.{unary_crypto, unary_crypto-IsLawful, box_key, box_token}

abbrev box : Text
box = codes "box"

abbrev box_worker : Worker
box_worker = record {
  node_id = box;
  session = record {
    capabilities = (codes "terminalexec", record { max_inflight = 2; inflight = 1 }) ∷ [];
    pending = [];
    results = [];
    done = false;
    closed_err = none;
  };
  recovery = record {
    recovery_required = false;
    recovery_complete = true;
    recovery_candidates = [];
    recovery_results = [];
  };
  capacity = record { known = false; max_active_sessions = 0; active_session_count = 0 };
  proxy_endpoint = codes "10.0.0.1:80";
  route_token_key = box_key;
  proxy_direct = [];
}

abbrev box_routes : Routes
box_routes = record {
  session_to_node =
      (
        codes "s1",
        record {
          node_id = box;
          last_used = 10;
          lease_expires = 900;
          created_at = 10;
          recovery_state = ready;
          reservation_id = 0;
          confirmed_reservation_id = 1;
          provisional_uses = 0;
        },
      )
      ∷ [];
  node_to_sessions = (box, (codes "s1", tt) ∷ []) ∷ [];
  reservation_seq = 1;
  route_ttl = 1000;
  last_prune = 90;
  stored = [];
  revoked = [];
}

abbrev box_service : Service
box_service = record {
  heap = box_worker ∷ [];
  sessions = (box, 0) ∷ [];
  round_robin = 0;
  routes = box_routes;
  pauses = 0;
}

abbrev still : Gap
still k s = s

abbrev quiet : World
quiet = record { gap = still; clock = λ k. 10; db = λ k. runs; online = λ k. box ∷ [] }

abbrev silent : Delivery
silent = record {
  command_id = λ k. none;
  enqueued = λ k. none;
  on_dispatched = λ k. none;
  context_error = λ k. deadline_exceeded;
  context_first = λ k. true;
  decode_lease = λ t. none;
}

abbrev no_answers : Answers
no_answers = record {
  encode_resolve = λ s p. none;
  decode_resolved = λ t. none;
  parse_url = λ t. none;
  allowed_direct_domains = [];
}

abbrev box_authorization : Authorization
box_authorization = record {
  upstream = codes "http://10.0.0.1:80";
  upstream_host = [];
  token = box_token;
  traffic_token = [];
}

abbrev box_after : Service
box_after =
    (authorize_proxy_route quiet silent no_answers unary_crypto true box_service box (codes "s1") 80
      500 100).0

box-granted :
    authorize_proxy_route quiet silent no_answers unary_crypto true box_service box
      (codes "s1")
      80
      500
      100
    ≡ (box_after, granted box_authorization)
unfolding authorize_proxy_route proxy_terminal_session_worker session_supports_proxy has_capability
    normalize_capability trim_space trim_left trim_right is_space text_eq lookup pause get_session
    maybe_prune_terminal_session_routes terminal_session_route_snapshot snapshot_found sign
    validate_claims to_lower lower_code utf8
box-granted = refl

box_valid : is_valid_utf8 (trim_space box) ≡ true
unfolding is_valid_utf8 trim_space trim_left trim_right is_space
box_valid = refl

s1_valid : is_valid_utf8 (trim_space (codes "s1")) ≡ true
unfolding is_valid_utf8 trim_space trim_left trim_right is_space
s1_valid = refl

authorize_proxy_route-IsOpened_example :
    IsOpened box_after unary_crypto (trim_space box) box_token 200 (record {
      worker_id = trim_space box;
      session_id = trim_space (codes "s1");
      port = pos 80;
      expires_at = pos 500;
    })
authorize_proxy_route-IsOpened_example =
    authorize_proxy_route-IsOpened quiet silent no_answers unary_crypto unary_crypto-IsLawful true
      box_service box_after box (codes "s1") 80 500 100 200 box_authorization box_valid s1_valid
      box-granted refl (unfold utf8 in refl) refl
