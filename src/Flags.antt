-- ===== src/Flags.antt =====
-- main.go, `parseFlags` after the flag library has read the arguments, with api.go's
-- `normalizeInviteSecret` and socks5.go's checks. A call of `failUsage`, which exits, is `none`. The
-- readers of URLs, of addresses and of the file system are arguments.
pub mod Accepted
use teleport_client.Base.{
  ℕ, zero, suc, ◌+◌, Bool, true, false, not, ◌&&◌, ◌||◌, Option, none, some, List, [], ◌∷◌, reverse,
  Text, codes, ℤ, pos, ltb_ℤ, is_empty, is_nonempty, text_eq, length, leb, ltb, ◌==◌, if◌then◌else◌,
  has_prefix, trim_space, to_lower, parse_int64, has_byte,
}
use teleport_client.Net.{NetLib}
use teleport_client.Candidates.{NetworkFamily, family_dual, family_ipv4, family_ipv6}
use teleport_client.PathMtu.{resolve_configured_mtu, resolve_tcp_congestion_control, is_port}

-- What `url.Parse` finds in an invite.
pub record InviteUrl : Type 0 where
  pub hostname : Text
  pub escaped_path : Text
  pub raw_query : Text
  pub fragment : Text

unfoldable pub drop_slashes : Text → Text
drop_slashes [] = []
drop_slashes (c ∷ s) = let rest = drop_slashes s in if c == b'/' then rest else c ∷ s

abbrev pub trim_slashes : Text → Text
trim_slashes s = reverse (drop_slashes (reverse (drop_slashes s)))

abbrev pub is_dash_index : ℕ → Bool
is_dash_index i = (i == 8 || i == 13) || (i == 18 || i == 23)

abbrev pub is_hex_digit : ℕ → Bool
is_hex_digit c = (leb 48 c && leb c 57) || ((leb 97 c && leb c 102) || (leb 65 c && leb c 70))

unfoldable pub is_uuid_from : ℕ → Text → Bool
is_uuid_from i [] = true
is_uuid_from i (c ∷ s) =
    (if is_dash_index i then c == b'-' else is_hex_digit c) && is_uuid_from (suc i) s

unfoldable pub is_uuid : Text → Bool
unfolding is_uuid_from
is_uuid s = length s == 36 && is_uuid_from 0 s

abbrev pub checked_uuid : Text → Option Text
checked_uuid value = if is_uuid value then some (to_lower value) else none

abbrev pub checked_url : Option InviteUrl → Option Text
checked_url none = none
checked_url (some u) =
    if not (text_eq (to_lower u.hostname) (codes "teleport.ui.link"))
    then none
    else if has_byte b'/' (trim_slashes u.escaped_path)
        || (is_nonempty u.raw_query || is_nonempty u.fragment)
    then none
    else some (trim_slashes u.escaped_path)

abbrev pub checked_path : Option Text → Option Text
checked_path none = none
checked_path (some path) = checked_uuid path

unfoldable pub normalize_invite_secret : (Text → Option InviteUrl) → Text → Option Text
unfolding has_prefix drop_slashes is_uuid trim_space
normalize_invite_secret parse_url invite =
    let value = trim_space invite in
    if has_prefix (codes "https://") value || has_prefix (codes "http://") value
    then checked_path (checked_url (parse_url value))
    else checked_uuid value

abbrev pub is_some_port : Option ℤ → Bool
is_some_port none = false
is_some_port (some n) = is_port n

unfoldable pub validate_port : Text → Bool
validate_port value = is_some_port (parse_int64 value)

abbrev pub is_host_port : Option (Text × Text) → Bool
is_host_port none = false
is_host_port (some (host, port)) = is_nonempty host && validate_port port

unfoldable pub validate_socks5_addr : NetLib → Text → Bool
unfolding validate_port
validate_socks5_addr net addr = is_host_port (net.split_host_port addr)

-- The flags as given, with the number of positional arguments, and the environment.
pub record RawFlags : Type 0 where
  pub invite : Text
  pub name : Text
  pub endpoint_override : Text
  pub force_turn : Bool
  pub socks5_addr : Text
  pub socks5_user : Text
  pub socks5_pass : Text
  pub force_ipv4 : Bool
  pub force_ipv6 : Bool
  pub session_file : Text
  pub mtu : ℤ
  pub positional : ℕ
  pub env_pass : Text
  pub env_mtu : Text
  pub env_cc : Text

pub record CliFlags : Type 0 where
  pub invite : Text
  pub name : Text
  pub endpoint_override : Text
  pub force_turn : Bool
  pub socks5_addr : Text
  pub socks5_user : Text
  pub socks5_pass : Text
  pub family : NetworkFamily
  pub session_file : Text
  pub mtu : ℤ
  pub tcp_congestion_control : Text

unfoldable pub socks5_pass_value : RawFlags → Text
socks5_pass_value f =
    if is_empty f.socks5_pass && (is_nonempty f.socks5_user && is_nonempty f.env_pass)
    then f.env_pass
    else f.socks5_pass

-- The checks up to the one of `--turn` and `--endpoint`.
module _ (net : NetLib) where
  unfoldable pub passes_checks : RawFlags → Bool
  unfolding socks5_pass_value validate_socks5_addr
  passes_checks f =
      if not (f.positional == 0)
      then false
      else if is_empty (trim_space f.name)
      then false
      else if ltb 128 (length f.name)
      then false
      else if not (validate_socks5_addr net f.socks5_addr)
      then false
      else if is_empty f.socks5_user && is_nonempty (socks5_pass_value f)
      then false
      else if is_nonempty f.socks5_user && is_empty (socks5_pass_value f)
      then false
      else if is_nonempty f.socks5_user && is_empty (trim_space f.socks5_user)
      then false
      else if ltb 255 (length f.socks5_user)
      then false
      else if ltb 255 (length (socks5_pass_value f))
      then false
      else if f.force_ipv4 && f.force_ipv6
      then false
      else if is_nonempty f.endpoint_override && not (validate_socks5_addr net f.endpoint_override)
      then false
      else if f.force_turn && is_nonempty f.endpoint_override
      then false
      else true

-- The invite, or else a session file that can be read and is no directory.
abbrev pub invite_or_session :
    (Text → Option InviteUrl) → (Text → Option Bool) → RawFlags → Option Text
invite_or_session parse_url stat_is_dir f =
    if is_nonempty f.invite
    then normalize_invite_secret parse_url f.invite
    else if is_empty f.session_file
    then none
    else elim (stat_is_dir f.session_file) [
      | none ↦ none
      | some is_dir ↦ if is_dir then none else some []
    ]

abbrev pub family_of : Bool → Bool → NetworkFamily
family_of force_ipv4 force_ipv6 =
    if force_ipv6 then family_ipv6 else if force_ipv4 then family_ipv4 else family_dual

abbrev pub with_values : RawFlags → Option Text → Option ℤ → Option Text → Option CliFlags
with_values f (some invite) (some mtu) (some cc_name) = some (record {
  invite = invite;
  name = f.name;
  endpoint_override = f.endpoint_override;
  force_turn = f.force_turn;
  socks5_addr = f.socks5_addr;
  socks5_user = f.socks5_user;
  socks5_pass = socks5_pass_value f;
  family = family_of f.force_ipv4 f.force_ipv6;
  session_file = f.session_file;
  mtu = mtu;
  tcp_congestion_control = cc_name;
})
with_values f _ _ _ = none

unfoldable pub parse_flags :
    NetLib → (Text → Option InviteUrl) → (Text → Option Bool) → RawFlags → Option CliFlags
unfolding passes_checks normalize_invite_secret resolve_configured_mtu
    resolve_tcp_congestion_control
parse_flags net parse_url stat_is_dir f =
    if not (passes_checks net f)
    then none
    else with_values f (invite_or_session parse_url stat_is_dir f)
        (resolve_configured_mtu f.mtu f.env_mtu) (resolve_tcp_congestion_control f.env_cc)
