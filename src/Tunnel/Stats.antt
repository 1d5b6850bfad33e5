-- ===== src/Tunnel/Stats.antt =====
-- tunnel.go: `parseWireGuardPeerStats` and `wireGuardPathActiveSince`.
use teleport_client.Base.{
  ℕ, ◌+◌, ◌*◌, ◌≡◌, refl, sym, ◌∙◌, Bool, true, false, not, ◌||◌, Option, none, some, is_some, List,
  [], ◌∷◌, ◌++◌, Text, codes, ℤ, pos, negsuc, ltb, zero, suc, ap, ◌==◌, leb, is_nonempty, text_eq,
  if◌then◌else◌, arith, split_on, cut, parse_int64, parse_uint64, split_on-append, has_byte,
}
use teleport_client.Echo.{second}

-- `lastHandshake` in seconds since 1970, `none` for the zero time.
pub record WireGuardPeerStats : Type 0 where
  pub endpoint : Text
  pub last_handshake : Option ℕ
  pub rx_bytes : ℕ
  pub valid : Bool

abbrev pub no_stats : WireGuardPeerStats
no_stats = record { endpoint = []; last_handshake = none; rx_bytes = 0; valid = false }

abbrev pub handshake_of : Option ℤ → Option ℕ → Option ℕ
handshake_of (some (pos seconds)) old = if ltb 0 seconds then some seconds else old
handshake_of _ old = old

abbrev pub bytes_of : Option ℕ → ℕ → ℕ
bytes_of none old = old
bytes_of (some n) old = n

unfoldable pub stats_field : WireGuardPeerStats → Option (Text × Text) → WireGuardPeerStats
stats_field s none = s
stats_field s (some (key, value)) =
    if text_eq key (codes "endpoint")
    then record s { endpoint = value }
    else if text_eq key (codes "last_handshake_time_sec")
    then record s { last_handshake = handshake_of (parse_int64 value) s.last_handshake }
    else if text_eq key (codes "rx_bytes")
    then record s { rx_bytes = bytes_of (parse_uint64 value) s.rx_bytes }
    else s

unfoldable pub stats_lines : WireGuardPeerStats → List Text → WireGuardPeerStats
unfolding stats_field
stats_lines s [] = s
stats_lines s (line ∷ lines) = stats_lines (stats_field s (cut b'=' line)) lines

abbrev pub mark_valid : WireGuardPeerStats → WireGuardPeerStats
mark_valid s = record s {
  valid = is_nonempty s.endpoint || (is_some s.last_handshake || ltb 0 s.rx_bytes);
}

unfoldable pub parse_wire_guard_peer_stats : Text → WireGuardPeerStats
unfolding stats_lines
parse_wire_guard_peer_stats ipc_data = mark_valid (stats_lines no_stats (split_on b'\n' ipc_data))

-- `t.After(u)`.
abbrev pub after : Option ℕ → Option ℕ → Bool
after none u = false
after (some t) none = true
after (some t) (some u) = ltb u t

abbrev pub wire_guard_recent_handshake_window : ℕ
wire_guard_recent_handshake_window = 180 * second

-- `!t.IsZero() && now.Sub(t) <= wireGuardRecentHandshakeWindow`.
abbrev pub is_recent : Option ℕ → ℕ → Bool
is_recent none now = false
is_recent (some t) now = leb now (t * second + wire_guard_recent_handshake_window)

unfoldable pub wire_guard_path_active_since : WireGuardPeerStats → WireGuardPeerStats → ℕ → Bool
wire_guard_path_active_since baseline current now =
    if not current.valid
    then false
    else if baseline.valid
    then ltb baseline.rx_bytes current.rx_bytes
      || after current.last_handshake baseline.last_handshake
    else is_recent current.last_handshake now

stats_lines-last :
    (s : WireGuardPeerStats) (lines : List Text) (line : Text)
    → stats_lines s (lines ++ line ∷ []) ≡ stats_field (stats_lines s lines) (cut b'=' line)
unfolding stats_lines
stats_lines-last s [] line = refl
stats_lines-last s (l ∷ lines) line = stats_lines-last (stats_field s (cut b'=' l)) lines line

mark_valid-field :
    (s : WireGuardPeerStats) (field : Option (Text × Text))
    → mark_valid (stats_field (mark_valid s) field) ≡ mark_valid (stats_field s field)
unfolding stats_field
mark_valid-field s none = refl
mark_valid-field s (some (key, value)) =
    by_key (text_eq key (codes "endpoint")) (text_eq key (codes "last_handshake_time_sec"))
      (text_eq key (codes "rx_bytes"))
  where
    update : WireGuardPeerStats → Bool → Bool → Bool → WireGuardPeerStats
    update s is_endpoint is_handshake is_rx_bytes =
        if is_endpoint
        then record s { endpoint = value }
        else if is_handshake
        then record s { last_handshake = handshake_of (parse_int64 value) s.last_handshake }
        else if is_rx_bytes
        then record s { rx_bytes = bytes_of (parse_uint64 value) s.rx_bytes }
        else s

    by_key : (a b c : Bool) → mark_valid (update (mark_valid s) a b c) ≡ mark_valid (update s a b c)
    by_key true b c = refl
    by_key false true c = refl
    by_key false false true = refl
    by_key false false false = refl

-- A report that grows by one line is read by reading the new line into what was read before.
parse-grown :
    (report line : Text)
    → has_byte b'\n' line ≡ false
    → parse_wire_guard_peer_stats (report ++ b'\n' ∷ line)
      ≡ mark_valid (stats_field (parse_wire_guard_peer_stats report) (cut b'=' line))
unfolding parse_wire_guard_peer_stats
parse-grown report line h =
    rw (split_on-append b'\n' report line h, stats_lines-last no_stats (split_on b'\n' report) line)
      (sym (mark_valid-field (stats_lines no_stats (split_on b'\n' report)) (cut b'=' line)))

-- The value of a line that holds a count of seconds above zero.
abbrev pub positive_seconds : Text → Option ℕ
positive_seconds value = elim (parse_int64 value) [
  | none ↦ none
  | some (pos zero) ↦ none
  | some (pos (suc n)) ↦ some (suc n)
  | some (negsuc n) ↦ none
]

abbrev pub or_old : Option ℕ → Option ℕ → Option ℕ
or_old none old = old
or_old (some n) old = some n

-- What has an endpoint, a handshake or a count above zero.
abbrev pub has_report : Text → Option ℕ → ℕ → Bool
has_report endpoint none rx_bytes = is_nonempty endpoint || not (rx_bytes == 0)
has_report endpoint (some t) rx_bytes = true

abbrev pub with_endpoint : WireGuardPeerStats → Text → WireGuardPeerStats
with_endpoint s value = record s {
  endpoint = value;
  valid = has_report value s.last_handshake s.rx_bytes;
}

abbrev pub with_handshake : WireGuardPeerStats → Option ℕ → WireGuardPeerStats
with_handshake s read = record s {
  last_handshake = or_old read s.last_handshake;
  valid = has_report s.endpoint (or_old read s.last_handshake) s.rx_bytes;
}

abbrev pub with_rx_bytes : WireGuardPeerStats → Option ℕ → WireGuardPeerStats
with_rx_bytes s none = record s { valid = has_report s.endpoint s.last_handshake s.rx_bytes }
with_rx_bytes s (some n) = record s {
  rx_bytes = n;
  valid = has_report s.endpoint s.last_handshake n;
}

mark_valid-has_report :
    (s : WireGuardPeerStats)
    → mark_valid s ≡ record s { valid = has_report s.endpoint s.last_handshake s.rx_bytes }
mark_valid-has_report s =
    ap (λ b. record s { valid = b }) (by_handshake s.endpoint s.last_handshake s.rx_bytes)
  where
    by_handshake :
        (endpoint : Text) (t : Option ℕ) (n : ℕ)
        → (is_nonempty endpoint || (is_some t || ltb 0 n)) ≡ has_report endpoint t n
    by_handshake endpoint none n = ground arith
    by_handshake endpoint (some t) n = ground arith

handshake_of-positive :
    (value : Text) (old : Option ℕ)
    → handshake_of (parse_int64 value) old ≡ or_old (positive_seconds value) old
handshake_of-positive value old = by_parse (parse_int64 value)
  where
    by_parse :
        (o : Option ℤ)
        → handshake_of o old
          ≡ or_old
              (elim o [
                | none ↦ none
                | some (pos zero) ↦ none
                | some (pos (suc n)) ↦ some (suc n)
                | some (negsuc n) ↦ none
              ])
              old
    by_parse none = refl
    by_parse (some (pos zero)) = refl
    by_parse (some (pos (suc n))) = ground arith
    by_parse (some (negsuc n)) = refl

mark_valid-rx_bytes :
    (s : WireGuardPeerStats) (read : Option ℕ)
    → mark_valid (record s { rx_bytes = bytes_of read s.rx_bytes }) ≡ with_rx_bytes s read
mark_valid-rx_bytes s none = mark_valid-has_report s
mark_valid-rx_bytes s (some n) = mark_valid-has_report (record s { rx_bytes = n })

-- When a line is put at the end of any report, the line's key alone decides what changes: the value
-- of `endpoint=` becomes the endpoint, a positive 64-bit decimal after `last_handshake_time_sec=` the
-- handshake, an unsigned 64-bit decimal after `rx_bytes=` the count; any other value of the latter two
-- keeps the old one, and an empty line changes nothing. The report is valid from then on exactly when
-- it has an endpoint, a handshake or a count above zero.
pub parse_wire_guard_peer_stats_line :
    (report value : Text)
    → has_byte b'\n' value ≡ false
    → (parse_wire_guard_peer_stats (report ++ b'\n' ∷ (codes "endpoint=" ++ value))
        ≡ with_endpoint (parse_wire_guard_peer_stats report) value)
      × (parse_wire_guard_peer_stats (report ++ b'\n' ∷ (codes "last_handshake_time_sec=" ++ value))
          ≡ with_handshake (parse_wire_guard_peer_stats report) (positive_seconds value))
      × (parse_wire_guard_peer_stats (report ++ b'\n' ∷ (codes "rx_bytes=" ++ value))
          ≡ with_rx_bytes (parse_wire_guard_peer_stats report) (parse_uint64 value))
      × (parse_wire_guard_peer_stats (report ++ b'\n' ∷ []) ≡ parse_wire_guard_peer_stats report)
unfolding has_byte cut stats_field text_eq
parse_wire_guard_peer_stats_line report value h =
    let before = parse_wire_guard_peer_stats report in
    (
      parse-grown report (codes "endpoint=" ++ value) h
          ∙ mark_valid-has_report (record before { endpoint = value }),
      parse-grown report (codes "last_handshake_time_sec=" ++ value) h
          ∙ ap (λ t. mark_valid (record before { last_handshake = t }))
              (handshake_of-positive value before.last_handshake)
          ∙ mark_valid-has_report (record before {
            last_handshake = or_old (positive_seconds value) before.last_handshake;
          }),
      parse-grown report (codes "rx_bytes=" ++ value) h
          ∙ mark_valid-rx_bytes before (parse_uint64 value),
      parse-grown report [] refl ∙ (unfold parse_wire_guard_peer_stats in refl),
    )

after_trans : (b c d : Option ℕ) → after c b ≡ false → after d c ≡ false → after d b ≡ false
after_trans b c none h1 h2 = refl
after_trans none (some c) (some d) h1 h2 = cc
after_trans b none (some d) h1 h2 = cc
after_trans (some b) (some c) (some d) h1 h2 = ground arith

after_irrefl : (b : Option ℕ) → after b b ≡ false
after_irrefl none = refl
after_irrefl (some b) = ground arith

-- Against a valid baseline, a path that shows no activity up to one report and none from there to
-- the next shows none over both, and a report shows none against itself.
pub wire_guard_path_active_since_lem :
    (b c d : WireGuardPeerStats) (now : ℕ)
    → b.valid ≡ true
    → c.valid ≡ true
    → wire_guard_path_active_since b c now ≡ false
    → wire_guard_path_active_since c d now ≡ false
    → (wire_guard_path_active_since b d now ≡ false)
      × (wire_guard_path_active_since b b now ≡ false)
unfolding wire_guard_path_active_since
wire_guard_path_active_since_lem b c d now hb hc h1 h2 = ground (
  arith,
  after_trans b.last_handshake c.last_handshake d.last_handshake,
  after_irrefl b.last_handshake,
)
