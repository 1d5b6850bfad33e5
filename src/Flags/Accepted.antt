-- ===== src/Flags/Accepted.antt =====
-- What holds of the flags that are accepted.
use teleport_client.Base.{
  has_prefix, ℕ, suc, ◌≡◌, refl, sym, Bool, true, false, not, ◌&&◌, ◌||◌, Option, none, some, [],
  ◌∷◌, Text, ℤ, is_empty, is_nonempty, length, leb, if◌then◌else◌, to_lower, trim_space, codes,
  arith, Bool-cases, inl, inr,
}
use teleport_client.Net.{NetLib}
use teleport_client.Flags.{
  InviteUrl, RawFlags, CliFlags, is_uuid_from, is_uuid, checked_uuid, checked_url, checked_path,
  normalize_invite_secret, passes_checks, invite_or_session, with_values, parse_flags,
  socks5_pass_value,
}
use teleport_client.PathMtu.{resolve_configured_mtu, resolve_tcp_congestion_control}

-- No byte is an upper-case letter.
unfoldable pub is_lower : Text → Bool
is_lower [] = true
is_lower (c ∷ s) = not (leb 65 c && leb c 90) && is_lower s

is_uuid_from-to_lower :
    (i : ℕ) (s : Text) → is_uuid_from i s ≡ true → is_uuid_from i (to_lower s) ≡ true
unfolding is_uuid_from
is_uuid_from-to_lower i [] h = refl
is_uuid_from-to_lower i (c ∷ s) h = ground (arith, h, is_uuid_from-to_lower (suc i) s)

is_lower-to_lower : (s : Text) → is_lower (to_lower s) ≡ true
unfolding is_lower
is_lower-to_lower [] = refl
is_lower-to_lower (c ∷ s) = ground (arith, is_lower-to_lower s)

length-to_lower : (s : Text) → length (to_lower s) ≡ length s
length-to_lower [] = refl
length-to_lower (c ∷ s) = omega (arith, length-to_lower s)

is_uuid-checked_uuid :
    (value s : Text) → checked_uuid value ≡ some s → (is_uuid s ≡ true) × (is_lower s ≡ true)
is_uuid-checked_uuid value s e = elim (Bool-cases (is_uuid value)) [
  | inr bad ↦ (cc, cc)
  | inl good ↦
      let same : to_lower value ≡ s = ground (arith, e, good) in
      (rw (sym same) (lowered good), rw (sym same) (is_lower-to_lower value))
]
  where
    lowered : is_uuid value ≡ true → is_uuid (to_lower value) ≡ true
    lowered good =
        unfold is_uuid in ground (arith, good, length-to_lower value, is_uuid_from-to_lower 0 value)

-- An invite that is accepted becomes a UUID of 36 bytes in lower case.
pub is_uuid-normalize_invite_secret :
    (parse_url : Text → Option InviteUrl) (invite s : Text)
    → normalize_invite_secret parse_url invite ≡ some s
    → (is_uuid s ≡ true) × (is_lower s ≡ true)
is_uuid-normalize_invite_secret parse_url invite s e =
    by_form
      (has_prefix (codes "https://") (trim_space invite)
        || has_prefix (codes "http://") (trim_space invite))
      (unfold normalize_invite_secret in e)
  where
    of_path : (o : Option Text) → checked_path o ≡ some s → (is_uuid s ≡ true) × (is_lower s ≡ true)
    of_path none e = (cc, cc)
    of_path (some path) e = is_uuid-checked_uuid path s e

    by_form :
        (is_url : Bool)
        → (if is_url
            then checked_path (checked_url (parse_url (trim_space invite)))
            else checked_uuid (trim_space invite))
          ≡ some s
        → (is_uuid s ≡ true) × (is_lower s ≡ true)
    by_form true e = of_path (checked_url (parse_url (trim_space invite))) e
    by_form false e = is_uuid-checked_uuid (trim_space invite) s e

-- What a user of the accepted flags relies on.
unfoldable pub is_acceptable : CliFlags → Bool
is_acceptable c =
    (is_nonempty (trim_space c.name) && leb (length c.name) 128)
    && ((if is_empty c.socks5_user then is_empty c.socks5_pass else is_nonempty c.socks5_pass)
        && ((leb (length c.socks5_user) 255 && leb (length c.socks5_pass) 255)
            && not (c.force_turn && is_nonempty c.endpoint_override)))

with_values-fields :
    (f : RawFlags) (invite : Option Text) (mtu : Option ℤ) (cc_name : Option Text) (c : CliFlags)
    → with_values f invite mtu cc_name ≡ some c
    → (c.name ≡ f.name)
      × (c.socks5_user ≡ f.socks5_user)
      × (c.socks5_pass ≡ socks5_pass_value f)
      × (c.force_turn ≡ f.force_turn)
      × (c.endpoint_override ≡ f.endpoint_override)
      × (mtu ≡ some c.mtu)
      × (cc_name ≡ some c.tcp_congestion_control)
with_values-fields f (some invite) (some mtu) (some cc_name) c e = (cc, cc, cc, cc, cc, cc, cc)
with_values-fields f none mtu cc_name c e = (cc, cc, cc, cc, cc, cc, cc)
with_values-fields f (some invite) none cc_name c e = (cc, cc, cc, cc, cc, cc, cc)
with_values-fields f (some invite) (some mtu) none c e = (cc, cc, cc, cc, cc, cc, cc)

-- Flags that are accepted have a name of at most 128 bytes that is not blank, a SOCKS5 password exactly
-- when they have a user, both of at most 255 bytes, not both TURN-only mode and an endpoint, and the
-- resolved MTU and congestion control.
pub is_acceptable-parse_flags :
    (net : NetLib) (parse_url : Text → Option InviteUrl) (stat_is_dir : Text → Option Bool)
    (f : RawFlags) (c : CliFlags)
    → parse_flags net parse_url stat_is_dir f ≡ some c
    → (is_acceptable c ≡ true)
      × (resolve_configured_mtu f.mtu f.env_mtu ≡ some c.mtu)
      × (resolve_tcp_congestion_control f.env_cc ≡ some c.tcp_congestion_control)
is_acceptable-parse_flags net parse_url stat_is_dir f c e =
    by_checks (passes_checks net f) refl (unfold parse_flags in e)
  where
    checked :
        passes_checks net f ≡ true
        → ((is_nonempty (trim_space f.name) && leb (length f.name) 128)
            && ((if is_empty f.socks5_user
                  then is_empty (socks5_pass_value f)
                  else is_nonempty (socks5_pass_value f))
                && ((leb (length f.socks5_user) 255 && leb (length (socks5_pass_value f)) 255)
                    && not (f.force_turn && is_nonempty f.endpoint_override))))
          ≡ true
    checked passed = unfold passes_checks in ground (arith, passed)

    by_checks :
        (b : Bool)
        → passes_checks net f ≡ b
        → (if not b
            then none
            else with_values f
                (invite_or_session parse_url stat_is_dir f)
                (resolve_configured_mtu f.mtu f.env_mtu)
                (resolve_tcp_congestion_control f.env_cc))
          ≡ some c
        → (is_acceptable c ≡ true)
          × (resolve_configured_mtu f.mtu f.env_mtu ≡ some c.mtu)
          × (resolve_tcp_congestion_control f.env_cc ≡ some c.tcp_congestion_control)
    by_checks false passed e = (cc, cc, cc)
    by_checks true passed e =
        let (name, user, pass, turn, endpoint, mtu, cc_name) =
          with_values-fields f (invite_or_session parse_url stat_is_dir f)
            (resolve_configured_mtu f.mtu f.env_mtu) (resolve_tcp_congestion_control f.env_cc) c
            e in
        (
          unfold is_acceptable in rw (name, user, pass, turn, endpoint) (checked passed),
          mtu,
          cc_name,
        )
