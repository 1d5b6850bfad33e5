-- ===== src/Attempt/Holding.antt =====
-- What an attempt holds after each of its events.
use teleport_client.Base.{◌≡◌, ap, Option, none, some, List, [], ◌∷◌, ◌++◌}
use teleport_client.Attempt.{
  AttemptEvent, sockets_opened, sockets_closed, early_started, early_stopped, request_deleted,
  config_printed, tunnel_ran,
}

-- What is held: nothing, the sockets, or the sockets with a listener that reads them.
pub data Held : Type 0 where
  nothing_held sockets_held listener_held : Held

-- The next state, or `none` for an event that must not happen in a state.
unfoldable pub hold : Held → AttemptEvent → Option Held
hold nothing_held (sockets_opened s) = some sockets_held
hold sockets_held (early_started allowed) = some listener_held
hold sockets_held early_stopped = some sockets_held
hold listener_held early_stopped = some sockets_held
hold sockets_held sockets_closed = some nothing_held
hold sockets_held (tunnel_ran n) = some sockets_held
hold held (request_deleted id token) = some held
hold sockets_held (config_printed endpoint) = some sockets_held
hold listener_held (config_printed endpoint) = some listener_held
hold held event = none

abbrev pub and_then : Option Held → (Held → Option Held) → Option Held
and_then none f = none
and_then (some held) f = f held

unfoldable pub hold_all : Held → List AttemptEvent → Option Held
unfolding hold
hold_all held [] = some held
hold_all held (event ∷ events) = and_then (hold held event) (λ next. hold_all next events)

pub hold_all-append :
    (held next : Held) (events more : List AttemptEvent)
    → hold_all held events ≡ some next
    → hold_all held (events ++ more) ≡ hold_all next more
unfolding hold_all
hold_all-append held next [] more e = ap (λ o. and_then o (λ h. hold_all h more)) e
hold_all-append held next (event ∷ events) more e =
    by_event (hold held event) e (λ h f. hold_all-append h next events more f)
  where
    by_event :
        (o : Option Held)
        → and_then o (λ h. hold_all h events) ≡ some next
        → ((h : Held)
            → hold_all h events ≡ some next
            → hold_all h (events ++ more) ≡ hold_all next more)
        → and_then o (λ h. hold_all h (events ++ more)) ≡ hold_all next more
    by_event none e ih = cc
    by_event (some h) e ih = ih h e
