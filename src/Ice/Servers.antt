-- ===== src/Ice/Servers.antt =====
-- The server that is chosen is the first that can be used, in the order of the configuration.
use teleport_client.Base.{
  ◌≡◌, refl, ap, ◌∙◌, or_else, Bool, true, false, ◌&&◌, ◌||◌, Option, none, some, is_some, List, [],
  ◌∷◌, ◌++◌, map, keep, Text, codes, cut, push_fst, text_eq, is_nonempty, ◌==◌, if◌then◌else◌,
  arith,
}
use teleport_client.Candidates.{Candidate}
use teleport_client.Api.{IceServer}
use teleport_client.Ice.{
  IceUrl, with_authority, join_host_port, parse_console_ice_url, stun_host_port, turn_host_port,
  server_of_urls, server_from_ice, stun_server_from_ice, turn_server_from_ice, any_reflex,
  validate_turn_prerequisites,
}

-- All URLs of a configuration, in order, as they are read: the first colon of each becomes `://`.
abbrev pub authority : Option (Text × Text) → Text → Text
authority none raw_url = raw_url
authority (some (scheme, rest)) raw_url = scheme ++ (codes "://" ++ rest)

abbrev pub read_url : (Text → Option IceUrl) → Text → Option IceUrl
read_url url_parse raw_url = url_parse (authority (cut b':' raw_url) raw_url)

unfoldable pub urls_of : (Text → Option IceUrl) → List IceServer → List (Option IceUrl)
urls_of url_parse [] = []
urls_of url_parse (s ∷ ice) = map (read_url url_parse) s.urls ++ urls_of url_parse ice

abbrev pub is_stun_url : Option IceUrl → Bool
is_stun_url none = false
is_stun_url (some u) = text_eq u.scheme (codes "stun") && is_nonempty u.hostname

abbrev pub is_udp_turn_url : Option IceUrl → Bool
is_udp_turn_url none = false
is_udp_turn_url (some u) =
    text_eq u.scheme (codes "turn") && (is_nonempty u.hostname && text_eq u.transport (codes "udp"))

-- The host and the port of the first URL that is left, with 3478 where it has no port.
abbrev pub first_host_port : List (Option IceUrl) → Option Text
first_host_port (some u ∷ us) =
    some (join_host_port u.hostname (if is_nonempty u.port then u.port else codes "3478"))
first_host_port _ = none

unfoldable pub any_url : (Option IceUrl → Bool) → List (Option IceUrl) → Bool
any_url p [] = false
any_url p (u ∷ us) = p u || any_url p us

abbrev pub any_reflexive : List Candidate → Bool
any_reflexive [] = false
any_reflexive (c ∷ local) = text_eq c.type (codes "reflex") || any_reflexive local

with_authority-authority : (s : Text) → with_authority s ≡ authority (cut b':' s) s
unfolding with_authority cut
with_authority-authority [] = refl
with_authority-authority (c ∷ s) = by_colon (c == b':') (cut b':' s) (with_authority-authority s)
  where
    by_colon :
        (colon : Bool) (o : Option (Text × Text))
        → with_authority s ≡ authority o s
        → (if colon then codes "://" ++ s else c ∷ with_authority s)
          ≡ authority (if colon then some ([], s) else push_fst c o) (c ∷ s)
    by_colon true o ih = refl
    by_colon false none ih = ap (◌∷◌ c) ih
    by_colon false (some (scheme, rest)) ih = ap (◌∷◌ c) ih

or_else_assoc : (o p q : Option Text) → or_else (or_else o p) q ≡ or_else o (or_else p q)
or_else_assoc none p q = refl
or_else_assoc (some x) p q = refl

module _ (url_parse : Text → Option IceUrl) (host_port : Option IceUrl → Option Text)
    (p : Option IceUrl → Bool)
    (reads : (o : Option IceUrl) (us : List (Option IceUrl))
      → or_else (host_port o) (first_host_port us)
        ≡ first_host_port (if p o then o ∷ us else us)) where
  server_of_urls-first :
      (urls : List Text) (rest : List (Option IceUrl))
      → or_else (server_of_urls url_parse host_port urls) (first_host_port (keep p rest))
        ≡ first_host_port (keep p (map (read_url url_parse) urls ++ rest))
  unfolding server_of_urls keep parse_console_ice_url
  server_of_urls-first [] rest = refl
  server_of_urls-first (u ∷ urls) rest =
      or_else_assoc (host_port (url_parse (with_authority u)))
        (server_of_urls url_parse host_port urls) (first_host_port (keep p rest))
      ∙ ap (or_else (host_port (url_parse (with_authority u)))) (server_of_urls-first urls rest)
      ∙ ap
          (λ raw.
            or_else (host_port (url_parse raw))
              (first_host_port (keep p (map (read_url url_parse) urls ++ rest))))
          (with_authority-authority u)
      ∙ reads (read_url url_parse u) (keep p (map (read_url url_parse) urls ++ rest))

  server_from_ice-first :
      (ice : List IceServer)
      → server_from_ice url_parse host_port ice ≡ first_host_port (keep p (urls_of url_parse ice))
  unfolding server_from_ice urls_of keep
  server_from_ice-first [] = refl
  server_from_ice-first (s ∷ ice) =
      ap (or_else (server_of_urls url_parse host_port s.urls)) (server_from_ice-first ice)
      ∙ server_of_urls-first s.urls (urls_of url_parse ice)

stun_host_port-reads :
    (url_parse : Text → Option IceUrl) (o : Option IceUrl) (us : List (Option IceUrl))
    → or_else (stun_host_port url_parse o) (first_host_port us)
      ≡ first_host_port (if is_stun_url o then o ∷ us else us)
stun_host_port-reads url_parse none us = refl
stun_host_port-reads url_parse (some u) us = ground arith

turn_host_port-reads :
    (url_parse : Text → Option IceUrl) (o : Option IceUrl) (us : List (Option IceUrl))
    → or_else (turn_host_port url_parse o) (first_host_port us)
      ≡ first_host_port (if is_udp_turn_url o then o ∷ us else us)
turn_host_port-reads url_parse none us = refl
turn_host_port-reads url_parse (some u) us = ground arith

is_some-first_host_port :
    (p : Option IceUrl → Bool) (us : List (Option IceUrl))
    → p none ≡ false
    → is_some (first_host_port (keep p us)) ≡ any_url p us
unfolding keep any_url
is_some-first_host_port p [] h = refl
is_some-first_host_port p (none ∷ us) h = rw h (is_some-first_host_port p us h)
is_some-first_host_port p (some u ∷ us) h = by_test (p (some u)) (is_some-first_host_port p us h)
  where
    by_test :
        (kept : Bool)
        → is_some (first_host_port (keep p us)) ≡ any_url p us
        → is_some (first_host_port (if kept then some u ∷ keep p us else keep p us))
          ≡ (kept || any_url p us)
    by_test true ih = refl
    by_test false ih = ih

any_reflex-any_reflexive :
    (url_parse : Text → Option IceUrl) (local : List Candidate)
    → any_reflex url_parse local ≡ any_reflexive local
any_reflex-any_reflexive url_parse [] = refl
any_reflex-any_reflexive url_parse (c ∷ local) =
    ap (◌||◌ (text_eq c.type (codes "reflex"))) (any_reflex-any_reflexive url_parse local)

-- The STUN server is that of the first URL of the configuration, over all its servers in order, that has
-- the scheme stun and a host; the TURN server is that of the first URL with the scheme turn, a host and
-- the transport udp; each with the port 3478 where its URL has none. The TURN-only mode goes on exactly
-- when there is such a URL of either kind and a local candidate of the type reflex.
pub validate_turn_prerequisites_lem :
    (url_parse : Text → Option IceUrl) (ice : List IceServer) (local : List Candidate)
    → (stun_server_from_ice url_parse ice
        ≡ first_host_port (keep is_stun_url (urls_of url_parse ice)))
      × (turn_server_from_ice url_parse ice
          ≡ first_host_port (keep is_udp_turn_url (urls_of url_parse ice)))
      × (validate_turn_prerequisites url_parse ice local ≡ (
          any_url is_stun_url (urls_of url_parse ice)
          && (any_url is_udp_turn_url (urls_of url_parse ice) && any_reflexive local)))
unfolding stun_server_from_ice turn_server_from_ice
validate_turn_prerequisites_lem url_parse ice local =
    let urls = urls_of url_parse ice in
    let stun =
      server_from_ice-first url_parse (stun_host_port url_parse) is_stun_url
        (stun_host_port-reads url_parse) ice in
    let turn =
      server_from_ice-first url_parse (turn_host_port url_parse) is_udp_turn_url
        (turn_host_port-reads url_parse) ice in
    let has_stun = ap is_some stun ∙ is_some-first_host_port is_stun_url urls refl in
    let has_turn = ap is_some turn ∙ is_some-first_host_port is_udp_turn_url urls refl in
    (stun, turn, validated has_stun has_turn (any_reflex-any_reflexive url_parse local))
  where
    validated :
        {stun turn reflex : Bool}
        → is_some (stun_server_from_ice url_parse ice) ≡ stun
        → is_some (turn_server_from_ice url_parse ice) ≡ turn
        → any_reflex url_parse local ≡ reflex
        → validate_turn_prerequisites url_parse ice local ≡ (stun && (turn && reflex))
    validated s t r = unfold validate_turn_prerequisites in ground (arith, s, t, r)
