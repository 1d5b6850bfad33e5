-- ===== src/Tunnet/Mtu.antt =====
-- tun.go, `SetMTU`: the three places that hold the MTU, and the queue of device events.
use teleport_client.Base.{ℕ, ◌+◌, Bool, true, false, ltb, if◌then◌else◌}

pub record MtuState : Type 0 where
  pub device : ℕ
  pub link : ℕ
  pub nic : ℕ
  pub pending_events : ℕ

-- `events: make(chan tun.Event, 10)`.
abbrev pub events_capacity : ℕ
events_capacity = 10

-- `nic_ok` is whether the stack's `SetNICMTU` succeeds; the answer is whether `SetMTU` does. An
-- update event is dropped when the queue is full.
unfoldable pub set_mtu : MtuState → ℕ → Bool → MtuState × Bool
set_mtu t mtu nic_ok =
    let u = record t { device = mtu; link = mtu } in
    if nic_ok
    then (
      record u {
        nic = mtu;
        pending_events =
            if ltb u.pending_events events_capacity then u.pending_events + 1 else u.pending_events;
      },
      true,
    )
    else (u, false)
