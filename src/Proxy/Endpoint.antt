-- ===== src/Proxy/Endpoint.antt =====
-- console/internal/grpcserver/proxy_routes.go: what a worker may advertise as its proxy.
--
-- The packages net, net/netip, net/url and strconv are parameters; an address prefix is what it contains.
use onlyboxes.Prelude.{
  ℕ, Bool, false, ◌&&◌, ◌||◌, not, Option, none, some, List, [], ◌∷◌, Text, Map, codes, lookup,
  trim_space, to_lower, is_empty, text_eq, leb, ◌==◌, if◌then◌else◌, ℤ, pos,
}
use onlyboxes.Session.Defs.{has_capability}
use onlyboxes.Dispatch.Defs.{Worker}
use onlyboxes.Proxy.Token
use onlyboxes.Proxy.Token.{Crypto, ok, err, derive_key}

pub record Net (Addr : Type 0) : Type 0 where
  pub split_host_port : Text → Option (Text × Text)
  pub parse_addr : Text → Option Addr
  pub has_zone : Addr → Bool
  pub unmap : Addr → Addr
  pub is_global_unicast : Addr → Bool
  pub atoi : Text → Option ℤ
  pub join_host_port : Addr → ℕ → Text

abbrev pub any_contains : {Addr : Type 0} → Addr → List (Addr → Bool) → Bool
any_contains a [] = false
any_contains a (p ∷ ps) = p a || any_contains a ps

abbrev pub any_port : ℕ → List ℕ → Bool
any_port n [] = false
any_port n (p ∷ ps) = p == n || any_port n ps

module _ {Addr : Type 0} (net : Net Addr) (cidrs : List (Addr → Bool)) (ports : List ℕ) where
  abbrev pub endpoint_at : Addr → Option ℤ → Option Text
  endpoint_at a (some (pos n)) =
      if leb 1 n && leb n 65535 && any_port n ports && any_contains a cidrs
      then some (net.join_host_port a n)
      else none
  endpoint_at a _ = none

  abbrev pub endpoint_of : Text → Option Addr → Option Text
  endpoint_of raw_port none = none
  endpoint_of raw_port (some a) =
      if net.has_zone a || not (net.is_global_unicast (net.unmap a))
      then none
      else endpoint_at (net.unmap a) (net.atoi raw_port)

  abbrev pub endpoint_split : Option (Text × Text) → Option Text
  endpoint_split none = none
  endpoint_split (some (host, raw_port)) = endpoint_of raw_port (net.parse_addr (trim_space host))

  -- None is an error.
  unfoldable pub normalize_allowed_proxy_endpoint : Text → Option Text
  normalize_allowed_proxy_endpoint raw = endpoint_split (net.split_host_port (trim_space raw))

abbrev pub task_capability_terminal_proxy : Text
task_capability_terminal_proxy = codes "terminalproxy"

abbrev pub proxy_direct_e2b : Text
proxy_direct_e2b = codes "e2b"

pub data ConfigureError : Type 0 where
  both_modes unsupported_mode proxy_capability_missing bad_endpoint bad_secret : ConfigureError

pub data Configured : Type 0 where
  configured : Worker → Configured
  refused : ConfigureError → Configured

abbrev pub label : Option Text → Text
label none = []
label (some t) = trim_space t

abbrev pub with_key : Worker → Text → Token.Result Text → Configured
with_key w endpoint (ok key) =
    configured (record w { proxy_endpoint = endpoint; route_token_key = key })
with_key w endpoint (err e) = refused bad_secret

abbrev pub with_endpoint : Crypto → Worker → Text → Option Text → Configured
with_endpoint crypto w secret none = refused bad_endpoint
with_endpoint crypto w secret (some endpoint) = with_key w endpoint (derive_key crypto secret)

-- `labels` are those of the worker's hello.
unfoldable pub configure_session_proxy :
    {Addr : Type 0}
    → Net Addr
    → List (Addr → Bool)
    → List ℕ
    → Crypto
    → Bool
    → Worker
    → Map Text
    → Text
    → Configured
unfolding normalize_allowed_proxy_endpoint
configure_session_proxy net cidrs ports crypto proxy_enabled w labels worker_secret =
    let raw_endpoint = label (lookup (codes "obx.proxy_endpoint") labels) in
    let raw_direct = to_lower (label (lookup (codes "obx.proxy_direct") labels)) in
    if not proxy_enabled
    then configured w
    else if not (is_empty raw_endpoint) && not (is_empty raw_direct)
    then refused both_modes
    else if not (is_empty raw_direct)
    then if not (text_eq raw_direct proxy_direct_e2b)
      then refused unsupported_mode
      else if not (has_capability w.session task_capability_terminal_proxy)
      then refused proxy_capability_missing
      else configured (record w { proxy_direct = raw_direct })
    else if is_empty raw_endpoint
    then configured w
    else with_endpoint crypto w worker_secret
        (normalize_allowed_proxy_endpoint net cidrs ports raw_endpoint)

pub record Url : Type 0 where
  pub scheme : Text
  pub host : Text
  pub hostname : Text
  pub port : Text
  pub has_user : Bool
  pub raw_query : Text
  pub fragment : Text
  pub path : Text

-- `strings.HasSuffix`
unfoldable pub has_suffix : Text → Text → Bool
has_suffix suffix [] = is_empty suffix
has_suffix suffix (c ∷ s) = text_eq suffix (c ∷ s) || has_suffix suffix s

-- `strings.TrimSuffix(s, ".")`
abbrev pub trim_dot : Text → Text
trim_dot [] = []
trim_dot (c ∷ []) = if c == b'.' then [] else c ∷ []
trim_dot (c ∷ d ∷ s) = c ∷ trim_dot (d ∷ s)

abbrev pub is_allowed_domain : Text → List Text → Bool
is_allowed_domain hostname [] = false
is_allowed_domain hostname (d ∷ ds) =
    let domain = trim_dot (to_lower (trim_space d)) in
    (not (is_empty domain) && has_suffix (b'.' ∷ domain) hostname) || is_allowed_domain hostname ds

abbrev pub valid_url : List Text → Option Url → Option Url
valid_url domains none = none
valid_url domains (some u) =
    if text_eq u.scheme (codes "https")
      && not (is_empty u.host)
      && is_empty u.port
      && not u.has_user
      && is_empty u.raw_query
      && is_empty u.fragment
      && (is_empty u.path || text_eq u.path (codes "/"))
      && is_allowed_domain (to_lower u.hostname) domains
    then some u
    else none

unfoldable pub validate_direct_proxy_url : (Text → Option Url) → Text → List Text → Option Url
unfolding has_suffix
validate_direct_proxy_url parse raw domains = valid_url domains (parse raw)
