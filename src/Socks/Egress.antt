-- ===== src/Socks/Egress.antt =====
-- The proxy goes out over IPv4 only, and an open proxy on an exposed address is warned of.
use teleport_client.Base.{
  ◌≡◌, refl, subst, Bool, true, false, not, ◌&&◌, ◌||◌, Option, none, some, List, [], ◌∷◌, Text,
  is_empty, if◌then◌else◌, arith, or_else, is_nonempty, ap, ◌∙◌, ◌==◌, text_eq, codes, cut,
  to_lower,
}
use teleport_client.Net.{Ip, NetLib, is_v4, is_loopback, host_ip}
use teleport_client.Flags.{RawFlags, CliFlags, InviteUrl, parse_flags, validate_socks5_addr}
use teleport_client.Flags.Accepted.{is_acceptable, is_acceptable-parse_flags}
use teleport_client.Socks.{
  Socks5Auth, enabled, AuthMethod, user_pass, no_auth, socks5_auth_methods, only_v4, first_v4,
  resolve, dial_target, Socks5Proxy, is_exposed, start_socks5_proxy, trim_dot, before_zone,
  is_loopback_ip, is_loopback_bind_host,
}

module _ (net : NetLib) where
  first_v4-is_v4 : (addrs : List Text) (ip : Ip) → first_v4 net addrs ≡ some ip → is_v4 ip ≡ true
  unfolding first_v4
  first_v4-is_v4 [] ip e = cc
  first_v4-is_v4 (addr ∷ addrs) ip e = by_addr (net.parse_ip addr) e (first_v4-is_v4 addrs ip)
    where
      by_class :
          (found : Ip) (b : Bool)
          → is_v4 found ≡ b
          → or_else (if b then some found else none) (first_v4 net addrs) ≡ some ip
          → (first_v4 net addrs ≡ some ip → is_v4 ip ≡ true)
          → is_v4 ip ≡ true
      by_class found true f e later =
          let same : found ≡ ip = cc in subst (λ x. is_v4 x ≡ true) same f
      by_class found false f e later = later e

      by_addr :
          (o : Option Ip)
          → or_else (only_v4 net o) (first_v4 net addrs) ≡ some ip
          → (first_v4 net addrs ≡ some ip → is_v4 ip ≡ true)
          → is_v4 ip ≡ true
      by_addr none e later = later e
      by_addr (some found) e later = by_class found (is_v4 found) refl e later

-- An address that the proxy resolves is IPv4, and a target with that address is passed on to the stack
-- as it is; a target whose host is an IPv6 address is not.
pub dial_target-resolve :
    (net : NetLib) (answer : Option (List Text)) (dial_context : Text → Bool) (target other : Text)
    (ip six : Ip)
    → resolve net answer ≡ some ip
    → host_ip net target ≡ some ip
    → host_ip net other ≡ some six
    → is_v4 six ≡ false
    → (is_v4 ip ≡ true)
      × (dial_target net dial_context target ≡ dial_context target)
      × (dial_target net dial_context other ≡ false)
unfolding resolve dial_target
dial_target-resolve net none dial_context target other ip six e f g h = (cc, cc, cc)
dial_target-resolve net (some addrs) dial_context target other ip six e f g h =
    let is_ip4 = first_v4-is_v4 net addrs ip e in (is_ip4, rw (f, is_ip4) refl, rw (g, h) refl)

-- A client needs no credentials.
abbrev pub is_open : List AuthMethod → Bool
is_open [] = false
is_open (no_auth ∷ methods) = true
is_open (user_pass user pass ∷ methods) = is_empty pass || is_open methods

is_open-socks5_auth_methods :
    (user pass : Text)
    → (if is_empty user then is_empty pass else is_nonempty pass) ≡ true
    → is_open (socks5_auth_methods (record { user = user; pass = pass })) ≡ is_empty user
unfolding socks5_auth_methods is_empty
is_open-socks5_auth_methods [] pass h = refl
is_open-socks5_auth_methods (c ∷ user) pass h = ground (arith, h)

acceptable_pass :
    (c : CliFlags)
    → is_acceptable c ≡ true
    → (if is_empty c.socks5_user then is_empty c.socks5_pass else is_nonempty c.socks5_pass) ≡ true
unfolding is_acceptable
acceptable_pass c h = ground (arith, h)

-- Whether an address is one of this host's own.
abbrev pub is_own_ip : Option Ip → Bool
is_own_ip none = false
is_own_ip (some (Ip.v4 a b c d)) = a == 127
is_own_ip (some (Ip.v6 n)) = n == 1

-- Whether a proxy on it can be reached from elsewhere.
abbrev pub reaches_beyond : NetLib → Option (Text × Text) → Bool
reaches_beyond net none = false
reaches_beyond net (some (host, port)) =
    not (text_eq (to_lower (trim_dot net host)) (codes "localhost"))
    && not (is_own_ip (net.parse_ip (before_zone net host (cut b'%' host))))

is_exposed-reaches_beyond :
    (net : NetLib) (o : Option (Text × Text)) → is_exposed net o ≡ reaches_beyond net o
unfolding is_loopback_bind_host is_loopback
is_exposed-reaches_beyond net none = refl
is_exposed-reaches_beyond net (some (host, port)) =
    by_ip (text_eq (to_lower (trim_dot net host)) (codes "localhost"))
      (net.parse_ip (before_zone net host (cut b'%' host)))
  where
    by_ip :
        (named : Bool) (o : Option Ip)
        → not (named || is_loopback_ip net o) ≡ (not named && not (is_own_ip o))
    by_ip true o = refl
    by_ip false none = refl
    by_ip false (some (Ip.v4 a b c d)) = refl
    by_ip false (some (Ip.v6 n)) = refl

start_socks5_proxy-warned :
    (net : NetLib) (parse_url : Text → Option InviteUrl) (stat_is_dir : Text → Option Bool)
    (f : RawFlags) (c : CliFlags) (has_net listens : Bool) (p : Socks5Proxy)
    → parse_flags net parse_url stat_is_dir f ≡ some c
    → start_socks5_proxy net has_net listens c.socks5_addr
        (record { user = c.socks5_user; pass = c.socks5_pass })
      ≡ some p
    → (is_open p.methods ≡ is_empty c.socks5_user)
      × (p.warned ≡ (is_open p.methods && is_exposed net (net.split_host_port c.socks5_addr)))
start_socks5_proxy-warned net parse_url stat_is_dir f c has_net listens p accepted started =
    let (acceptable, mtu, congestion) =
      is_acceptable-parse_flags net parse_url stat_is_dir f c accepted in
    by_tests has_net (validate_socks5_addr net c.socks5_addr) listens
      (unfold start_socks5_proxy in started)
      (is_open-socks5_auth_methods c.socks5_user c.socks5_pass (acceptable_pass c acceptable))
  where
    auth : Socks5Auth
    auth = record { user = c.socks5_user; pass = c.socks5_pass }

    made : Socks5Proxy
    made = record {
      methods = socks5_auth_methods auth;
      warned = not (enabled auth) && is_exposed net (net.split_host_port c.socks5_addr);
      listening = true;
    }

    of_made :
        made ≡ p
        → is_open (socks5_auth_methods auth) ≡ is_empty c.socks5_user
        → (is_open p.methods ≡ is_empty c.socks5_user)
          × (p.warned ≡ (is_open p.methods && is_exposed net (net.split_host_port c.socks5_addr)))
    of_made e h =
        subst
          (λ q.
            (is_open q.methods ≡ is_empty c.socks5_user)
            × (q.warned
                ≡ (is_open q.methods && is_exposed net (net.split_host_port c.socks5_addr))))
          e (h, ground (arith, h))

    by_tests :
        (stack valid listening : Bool)
        → (if not stack
            then none
            else if not valid
            then none
            else if not listening
            then none
            else some (record {
              methods = socks5_auth_methods auth;
              warned = not (enabled auth) && is_exposed net (net.split_host_port c.socks5_addr);
              listening = true;
            }))
          ≡ some p
        → is_open (socks5_auth_methods auth) ≡ is_empty c.socks5_user
        → (is_open p.methods ≡ is_empty c.socks5_user)
          × (p.warned ≡ (is_open p.methods && is_exposed net (net.split_host_port c.socks5_addr)))
    by_tests false valid listening e h = (cc, cc)
    by_tests true false listening e h = (cc, cc)
    by_tests true true false e h = (cc, cc)
    by_tests true true true e h = let same : made ≡ p = cc in of_made same h

-- With flags that are accepted, the proxy is open to clients without credentials exactly when no user is
-- given, and it has warned exactly when it is open and its host is neither named localhost, in any case
-- and with or without a final dot, nor an address 127.x.x.x or ::1, with or without a zone.
pub start_socks5_proxy_lem :
    (net : NetLib) (parse_url : Text → Option InviteUrl) (stat_is_dir : Text → Option Bool)
    (f : RawFlags) (c : CliFlags) (has_net listens : Bool) (p : Socks5Proxy)
    → parse_flags net parse_url stat_is_dir f ≡ some c
    → start_socks5_proxy net has_net listens c.socks5_addr
        (record { user = c.socks5_user; pass = c.socks5_pass })
      ≡ some p
    → (is_open p.methods ≡ is_empty c.socks5_user)
      × (p.warned ≡ (is_open p.methods && reaches_beyond net (net.split_host_port c.socks5_addr)))
start_socks5_proxy_lem net parse_url stat_is_dir f c has_net listens p accepted started =
    let (opened, warned) =
      start_socks5_proxy-warned net parse_url stat_is_dir f c has_net listens p accepted started in
    (
      opened,
      warned
          ∙ ap (◌&&◌ (is_open p.methods))
              (is_exposed-reaches_beyond net (net.split_host_port c.socks5_addr)),
    )
