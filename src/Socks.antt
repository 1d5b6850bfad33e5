-- ===== src/Socks.antt =====
-- socks5.go: which clients the proxy lets in, which names and targets it takes, and its start and end. The
-- SOCKS5 protocol is a library's; the stack's resolver and dialer, and the listener, are arguments.
pub mod Egress
use teleport_client.Base.{
  ℕ, Bool, true, false, not, ◌&&◌, ◌||◌, Option, none, some, is_some, or_else, List, [], ◌∷◌, Text,
  codes, is_empty, is_nonempty, text_eq, ◌==◌, if◌then◌else◌, to_lower, cut,
}
use teleport_client.Net.{Ip, NetLib, is_v4, is_loopback, host_ip}
use teleport_client.Flags.{validate_socks5_addr}

pub record Socks5Auth : Type 0 where
  pub user : Text
  pub pass : Text

abbrev pub enabled : Socks5Auth → Bool
enabled auth = is_nonempty auth.user

pub data AuthMethod : Type 0 where
  user_pass : Text → Text → AuthMethod
  no_auth : AuthMethod

unfoldable pub socks5_auth_methods : Socks5Auth → List AuthMethod
socks5_auth_methods auth = if enabled auth then user_pass auth.user auth.pass ∷ [] else no_auth ∷ []

-- The running proxy: its methods, and whether it has warned of its exposure.
pub record Socks5Proxy : Type 0 where
  pub methods : List AuthMethod
  pub warned : Bool
  pub listening : Bool

module _ (net : NetLib) where
  abbrev pub only_v4 : Option Ip → Option Ip
  only_v4 none = none
  only_v4 (some ip) = if is_v4 ip then some ip else none

  unfoldable pub first_v4 : List Text → Option Ip
  first_v4 [] = none
  first_v4 (addr ∷ addrs) = or_else (only_v4 (net.parse_ip addr)) (first_v4 addrs)

  -- `Resolve`, given what the stack's lookup answers; `none` for an error.
  unfoldable pub resolve : Option (List Text) → Option Ip
  unfolding first_v4
  resolve none = none
  resolve (some addrs) = first_v4 addrs

  abbrev pub is_v6_literal : Option Ip → Bool
  is_v6_literal none = false
  is_v6_literal (some ip) = not (is_v4 ip)

  -- The dialer that the proxy is given, over the stack's: whether there is a connection.
  unfoldable pub dial_target : (Text → Bool) → Text → Bool
  unfolding host_ip
  dial_target dial_context target =
      if is_v6_literal (host_ip net target) then false else dial_context target

  abbrev pub trim_dot : Text → Text
  trim_dot [] = []
  trim_dot (c ∷ []) = if c == b'.' then [] else c ∷ []
  trim_dot (c ∷ d ∷ s) = c ∷ trim_dot (d ∷ s)

  abbrev pub before_zone : Text → Option (Text × Text) → Text
  before_zone host none = host
  before_zone host (some (before, zone)) = before

  abbrev pub is_loopback_ip : Option Ip → Bool
  is_loopback_ip none = false
  is_loopback_ip (some ip) = is_loopback ip

  unfoldable pub is_loopback_bind_host : Text → Bool
  unfolding is_loopback text_eq
  is_loopback_bind_host host =
      text_eq (to_lower (trim_dot host)) (codes "localhost")
      || is_loopback_ip (net.parse_ip (before_zone host (cut b'%' host)))

  abbrev pub is_exposed : Option (Text × Text) → Bool
  is_exposed none = false
  is_exposed (some (host, port)) = not (is_loopback_bind_host host)

  -- `startSocks5Proxy`, given whether there is a stack and whether the listen succeeds.
  unfoldable pub start_socks5_proxy : Bool → Bool → Text → Socks5Auth → Option Socks5Proxy
  unfolding socks5_auth_methods validate_socks5_addr is_loopback_bind_host
  start_socks5_proxy has_net listens addr auth =
      if not has_net
      then none
      else if not (validate_socks5_addr net addr)
      then none
      else if not listens
      then none
      else some (record {
        methods = socks5_auth_methods auth;
        warned = not (enabled auth) && is_exposed (net.split_host_port addr);
        listening = true;
      })

  -- `Close` closes the listener and waits for the server; a proxy that is nil stays nil.
  unfoldable pub close_socks5_proxy : Option Socks5Proxy → Option Socks5Proxy
  close_socks5_proxy none = none
  close_socks5_proxy (some p) = some (record p { listening = false })
