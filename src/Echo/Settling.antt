-- ===== src/Echo/Settling.antt =====
-- What the parts of a round do to the prober and the MTU of the stack.
use teleport_client.Base.{
  ℕ, ◌≡◌, refl, sym, Bool, true, false, Option, none, some, arith, ◌∙◌, Bool-cases, inl, inr, ltb,
  ◌&&◌, not,
}
use teleport_client.PeerMtu.{
  PeerMtuProber, disabled, next_probe_mtu, record_probe_result, arm, reset, base_tunnel_mtu,
}
use teleport_client.PeerMtu.Invariant.{
  IsValid, record_probe_result-IsValid, arm-IsValid, reset-IsValid,
}
use teleport_client.Tunnet.Mtu.{set_mtu}
use teleport_client.Echo.{observe_rtt}
use teleport_client.Echo.Pinger.{
  Pinger, RoundInput, RoundOutput, next_round, Attempt, start_probe, probe_next, choose_probe,
  settle_probe, fall_back, arm_unless, note_match, is_disabled,
}

-- A valid prober, disabled if its MTU is configured, that has confirmed the MTU `nic`.
pub record Tracks (o : Option PeerMtuProber) (nic : ℕ) : Type 0 where
  pub prober : PeerMtuProber
  pub is_some : o ≡ some prober
  pub valid : IsValid prober
  pub manual : prober.manual_override ≡ true → prober.state ≡ disabled
  pub locked : prober.confirmed_mtu ≡ nic

-- The same in the middle of a round, where a probe may have set the stack to its own size.
pub record Prepared (a : Attempt) : Type 0 where
  prober : PeerMtuProber
  is_some : a.pinger.prober ≡ some prober
  valid : IsValid prober
  manual : prober.manual_override ≡ true → prober.state ≡ disabled
  idle : a.probing ≡ none → prober.confirmed_mtu ≡ a.pinger.stack.nic

record_keeps_manual :
    (p : PeerMtuProber) (target : ℕ) (success : Bool)
    → (p.manual_override ≡ true → p.state ≡ disabled)
    → let q = (record_probe_result p target success).0 in
      q.manual_override ≡ true → q.state ≡ disabled
unfolding record_probe_result
record_keeps_manual p target success h = ground arith

failure_keeps_confirmed :
    (p : PeerMtuProber) (target : ℕ)
    → (record_probe_result p target false).0.confirmed_mtu ≡ p.confirmed_mtu
unfolding record_probe_result
failure_keeps_confirmed p target = ground arith

record_reports_confirmed :
    (p : PeerMtuProber) (target : ℕ) (success : Bool)
    → (record_probe_result p target success).1.new_mtu
      ≡ (record_probe_result p target success).0.confirmed_mtu
unfolding record_probe_result
record_reports_confirmed p target success = ground arith

module _ (s : Pinger) (p : PeerMtuProber) (at : s.prober ≡ some p) (v : IsValid p)
    (m : p.manual_override ≡ true → p.state ≡ disabled) (l : p.confirmed_mtu ≡ s.stack.nic) where
  start_probe-Prepared : (target : ℕ) (set_ok : Bool) → Prepared (start_probe s p target set_ok)
  unfolding start_probe set_mtu
  start_probe-Prepared target true = record {
    prober = p;
    is_some = at;
    valid = v;
    manual = m;
    idle = λ e. cc;
  }
  start_probe-Prepared target false = record {
    prober = (record_probe_result p target false).0;
    is_some = refl;
    valid = record_probe_result-IsValid p v target false;
    manual = record_keeps_manual p target false m;
    idle = λ _. failure_keeps_confirmed p target ∙ l;
  }

  still-Prepared : Prepared (record { pinger = s; probing = none })
  still-Prepared = record { prober = p; is_some = at; valid = v; manual = m; idle = λ _. l }

  probe_next-Prepared : (o : Option ℕ) (set_ok : Bool) → Prepared (probe_next s p o set_ok)
  unfolding probe_next
  probe_next-Prepared none set_ok = still-Prepared
  probe_next-Prepared (some target) set_ok = start_probe-Prepared target set_ok

  pub choose_probe-Prepared : (set_ok : Bool) → Prepared (choose_probe s (some p) set_ok)
  unfolding choose_probe
  choose_probe-Prepared set_ok = elim (Bool-cases (ltb 0 s.request_id && s.health.ready)) [
    | inl e ↦ rw e (probe_next-Prepared (next_probe_mtu p) set_ok)
    | inr e ↦ rw e still-Prepared
  ]

-- The prober is read once, as the argument `o`, which is the state's.
pub settle_probe-Tracks :
    (s : Pinger) (o : Option PeerMtuProber) (probing : Option ℕ) (success : Bool)
    → s.prober ≡ o
    → Prepared (record { pinger = s; probing = probing })
    → let t = settle_probe s o probing success true in Tracks t.prober t.stack.nic
unfolding settle_probe set_mtu
settle_probe-Tracks s none probing success at v = absurd (ground arith)
settle_probe-Tracks s (some p) none success at v = record {
  prober = v.prober;
  is_some = v.is_some;
  valid = v.valid;
  manual = v.manual;
  locked = v.idle refl;
}
settle_probe-Tracks s (some p) (some target) success at v =
    let same : p ≡ v.prober = cc in
    record {
      prober = (record_probe_result p target success).0;
      is_some = refl;
      valid = record_probe_result-IsValid p (rw same v.valid) target success;
      manual = record_keeps_manual p target success (rw same v.manual);
      locked = sym (record_reports_confirmed p target success);
    }

reset_confirms :
    (p : PeerMtuProber)
    → (p.manual_override ≡ true → p.state ≡ disabled)
    → is_disabled p.state ≡ false
    → ((reset p).confirmed_mtu ≡ base_tunnel_mtu) × ((reset p).manual_override ≡ false)
unfolding reset
reset_confirms p m h = ground arith

pub fall_back-Tracks :
    (s : Pinger) (o : Option PeerMtuProber) (lost : Bool)
    → s.prober ≡ o
    → Tracks s.prober s.stack.nic
    → let t = fall_back s o lost true in Tracks t.prober t.stack.nic
unfolding fall_back set_mtu
fall_back-Tracks s none lost at v = v
fall_back-Tracks s (some p) lost at v = elim (Bool-cases (lost && not (is_disabled p.state))) [
  | inr e ↦ rw e v
  | inl e ↦
      let same : p ≡ v.prober = cc in
      let (base, auto) = reset_confirms p (rw same v.manual) (ground arith) in
      rw e (record {
        prober = reset p;
        is_some = refl;
        valid = reset-IsValid p (rw same v.valid);
        manual = λ h. cc;
        locked = base;
      })
]

arm_unless-Tracks :
    (o : Option PeerMtuProber) (nic : ℕ) (probing : Option ℕ)
    → Tracks o nic
    → Tracks (arm_unless probing o) nic
arm_unless-Tracks o nic (some target) v = v
arm_unless-Tracks none nic none v = v
arm_unless-Tracks (some p) nic none v =
    let same : p ≡ v.prober = cc (v.is_some) in
    record {
      prober = arm p;
      is_some = refl;
      valid = arm-IsValid p (rw same v.valid);
      manual = unfold arm in rw same v.manual;
      locked = unfold arm in rw same v.locked;
    }

pub note_match-Tracks :
    (s : Pinger) (probing : Option ℕ) (now rtt : ℕ)
    → Tracks s.prober s.stack.nic
    → let t = (note_match s probing now rtt).0 in Tracks t.prober t.stack.nic
unfolding note_match
note_match-Tracks s probing now rtt v = elim (Bool-cases (observe_rtt s.stats now rtt).1) [
  | inl e ↦ rw e (arm_unless-Tracks s.prober s.stack.nic probing v)
  | inr e ↦ rw e (arm_unless-Tracks s.prober s.stack.nic probing v)
]

-- The calls of `SetMTU` that give the stack the prober's MTU succeed.
pub record SetsMtu (i : RoundInput) : Type 0 where
  pub after_write : i.set_after_write_ok ≡ true
  pub locked : i.set_locked_ok ≡ true
  pub base : i.set_base_ok ≡ true

-- A round after which the loop goes on leaves the stack at the confirmed MTU.
abbrev pub Keeps : RoundOutput → Type 0
Keeps out = out.outcome ≡ next_round → Tracks out.after.prober out.after.stack.nic
