-- ===== src/Echo/Tracking.antt =====
-- The stack's MTU follows the prober: whatever the echo answers, each round that the loop goes on
-- from leaves the stack at the confirmed MTU.
use teleport_client.Base.{
  ℕ, ◌-◌, ◌≤◌, ◌≡◌, refl, sym, Bool, false, Option, none, some, List, [], ◌∷◌, Text, arith,
  Bool-cases, inl, inr, ◌⊎◌, ◌&&◌, subst,
}
use teleport_client.PeerMtu.{PeerMtuProber, base_tunnel_mtu}
use teleport_client.Echo.{UdpEchoHealthEvent, observe_health}
use teleport_client.Echo.Pinger.{
  Pinger, RoundInput, RoundEnd, next_round, stopped, write_failed, choose_probe, settle_probe,
  after_write_error, after_wait, after_send, ping_round, payload, is_unhealthy, is_some_event,
  observe_round, finish_round,
}
use teleport_client.Echo.Settling.{
  Tracks, Prepared, choose_probe-Prepared, settle_probe-Tracks, fall_back-Tracks, note_match-Tracks,
  SetsMtu, Keeps,
}

after_write_error-Keeps :
    (sent : Text) (i : RoundInput) (s : Pinger) (probing : Option ℕ)
    → SetsMtu i
    → Prepared (record { pinger = s; probing = probing })
    → Keeps (after_write_error sent i s probing)
unfolding after_write_error
after_write_error-Keeps sent i s none w v h = cc
after_write_error-Keeps sent i s (some target) w v h =
    rw w.after_write (settle_probe-Tracks s s.prober (some target) false refl v)

observe_round-Tracks :
    (sent : Text) (i : RoundInput) (s : Pinger)
    → SetsMtu i
    → Tracks s.prober s.stack.nic
    → let t = (observe_round sent i s).0 in Tracks t.prober t.stack.nic
unfolding observe_round
observe_round-Tracks sent i s w v =
    rw w.base
      (fall_back-Tracks _ s.prober (is_unhealthy (observe_health s.health i.matched).1) refl v)

finish_round-Keeps :
    (sent : Text) (i : RoundInput) (s : Pinger) (probing : Option ℕ)
    (event : Option UdpEchoHealthEvent)
    → Tracks s.prober s.stack.nic
    → Keeps (finish_round sent i s probing event)
unfolding finish_round
finish_round-Keeps sent i s probing event v h =
    elim (Bool-cases (is_some_event event && i.cancelled_event)) [
      | inl e ↦ absurd (ground arith)
      | inr e ↦ elim (Bool-cases i.matched) [
        | inl m ↦ rw (e, m) (note_match-Tracks s probing i.now (i.now - i.started) v)
        | inr m ↦ rw (e, m) v
      ]
    ]

after_wait-Keeps :
    (sent : Text) (i : RoundInput) (s : Pinger) (probing : Option ℕ)
    → SetsMtu i
    → Prepared (record { pinger = s; probing = probing })
    → Keeps (after_wait sent i s probing)
unfolding after_wait
after_wait-Keeps sent i s probing w v h =
    let settled = settle_probe s s.prober probing i.matched i.set_locked_ok in
    finish_round-Keeps sent i (observe_round sent i settled).0 probing
      (observe_round sent i settled).1
      (observe_round-Tracks sent i settled w (
        subst
          (λ b.
            Tracks (settle_probe s s.prober probing i.matched b).prober
              (settle_probe s s.prober probing i.matched b).stack.nic)
          (sym w.locked) (settle_probe-Tracks s s.prober probing i.matched refl v)))
      h

after_send-Keeps :
    (sent : Text) (i : RoundInput) (s : Pinger) (probing : Option ℕ)
    → SetsMtu i
    → Prepared (record { pinger = s; probing = probing })
    → Keeps (after_send sent i s probing)
unfolding after_send
after_send-Keeps sent i s probing w v h = elim (Bool-cases i.write_ok) [
  | inr e ↦ rw e (after_write_error-Keeps sent i s probing w v (rw e at h))
  | inl e ↦ elim (Bool-cases i.cancelled_wait) [
    | inl c ↦ absurd (ground arith)
    | inr c ↦ rw (e, c) (after_wait-Keeps sent i s probing w v (rw (e, c) at h))
  ]
]

choose_probe-ready :
    (s : Pinger) (o : Option PeerMtuProber) (set_ok : Bool)
    → s.prober ≡ o
    → Tracks s.prober s.stack.nic
    → Prepared (choose_probe s o set_ok)
choose_probe-ready s none set_ok at v = absurd (ground arith)
choose_probe-ready s (some p) set_ok at v =
    let same : p ≡ v.prober = cc in
    choose_probe-Prepared s p at (rw same v.valid) (rw same v.manual) (rw same v.locked) set_ok

-- Every round that the loop goes on from leaves the stack at the MTU that its prober has confirmed,
-- if the calls that set it succeed; a refused probe size changes nothing.
pub ping_round-Tracks :
    (secret_hash : Text) (is_v4 : Bool) (s : Pinger) (i : RoundInput)
    → SetsMtu i
    → Tracks s.prober s.stack.nic
    → let out = ping_round secret_hash is_v4 s i in
      out.outcome ≡ next_round → Tracks out.after.prober out.after.stack.nic
unfolding ping_round
ping_round-Tracks secret_hash is_v4 s i w v h = elim (Bool-cases i.cancelled_first) [
  | inl e ↦ absurd (ground arith)
  | inr e ↦
      let a = choose_probe s s.prober i.set_probe_ok in
      rw e (
        after_send-Keeps (payload secret_hash is_v4 s.request_id a.probing) i a.pinger a.probing w
          (choose_probe-ready s s.prober i.set_probe_ok refl v) (rw e at h))
]

-- The loop over the rounds that the world allows.
unfoldable pub run_rounds : Text → Bool → Pinger → List RoundInput → Pinger × RoundEnd
run_rounds secret_hash is_v4 s [] = (s, next_round)
run_rounds secret_hash is_v4 s (i ∷ is) = elim (ping_round secret_hash is_v4 s i).outcome [
  | next_round ↦ run_rounds secret_hash is_v4 (ping_round secret_hash is_v4 s i).after is
  | other ↦ ((ping_round secret_hash is_v4 s i).after, other)
]

abbrev pub AllSet : List RoundInput → Type 0
AllSet [] = Unit
AllSet (i ∷ is) = SetsMtu i × AllSet is

end_cases : (e : RoundEnd) → (e ≡ next_round) ⊎ ((e ≡ stopped) ⊎ (e ≡ write_failed))
end_cases next_round = inl refl
end_cases stopped = inr (inl refl)
end_cases write_failed = inr (inr refl)

pub run_rounds-Tracks :
    (secret_hash : Text) (is_v4 : Bool) (s : Pinger) (is : List RoundInput)
    → AllSet is
    → Tracks s.prober s.stack.nic
    → let (t, e) = run_rounds secret_hash is_v4 s is in e ≡ next_round → Tracks t.prober t.stack.nic
unfolding run_rounds
run_rounds-Tracks secret_hash is_v4 s [] w v h = v
run_rounds-Tracks secret_hash is_v4 s (i ∷ is) w v h =
    elim (end_cases (ping_round secret_hash is_v4 s i).outcome) [
      | inl e ↦
          rw (e, run_rounds)
            (run_rounds-Tracks secret_hash is_v4 (ping_round secret_hash is_v4 s i).after is w.1
              (ping_round-Tracks secret_hash is_v4 s i w.0 v e) (rw (e, run_rounds) at h))
      | inr (inl e) ↦ absurd (ground arith)
      | inr (inr e) ↦ absurd (ground arith)
    ]

-- Any number of rounds after which the echo loop still runs leave the stack's MTU at what the prober
-- has confirmed, at least 1280 and at most the prober's ceiling, if the calls of `SetMTU` that give
-- the stack the prober's MTU succeed; those that give it a probe's size may fail.
pub run_rounds_mtu :
    (secret_hash : Text) (is_v4 : Bool) (s : Pinger) (is : List RoundInput) (p : PeerMtuProber)
    → AllSet is
    → Tracks s.prober s.stack.nic
    → (run_rounds secret_hash is_v4 s is).1 ≡ next_round
    → (run_rounds secret_hash is_v4 s is).0.prober ≡ some p
    → ((run_rounds secret_hash is_v4 s is).0.stack.nic ≡ p.confirmed_mtu)
      × (base_tunnel_mtu ≤ (run_rounds secret_hash is_v4 s is).0.stack.nic)
      × ((run_rounds secret_hash is_v4 s is).0.stack.nic ≤ p.max_target_mtu)
run_rounds_mtu secret_hash is_v4 s is p w v h at =
    let t = run_rounds-Tracks secret_hash is_v4 s is w v h in
    ground (arith, t.is_some, t.valid, t.locked)
