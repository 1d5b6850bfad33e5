-- ===== src/Bind/Lifecycle.antt =====
-- The lifecycle of the bind: what closing and opening again does to the receive functions.
use teleport_client.Base.{
  ℕ, ◌+◌, ◌≡◌, refl, Bool, true, false, not, ◌&&◌, ◌||◌, Option, none, some, List, [], ◌∷◌, ltb,
  arith,
}
use teleport_client.Bind.{StunBind, ReceiveFunc, open_bind, close_bind, close_done, is_closed}

pub data BindCall : Type 0 where
  opens closes : BindCall

abbrev pub after_call : StunBind → BindCall → StunBind
after_call b opens = (open_bind b).0
after_call b closes = close_bind b

unfoldable pub calls : StunBind → List BindCall → StunBind
calls b [] = b
calls b (c ∷ cs) = calls (after_call b c) cs

unfoldable pub all_below : ℕ → List ℕ → Bool
all_below n [] = true
all_below n (m ∷ ms) = ltb m n && all_below n ms

abbrev pub done_below : Option ℕ → ℕ → Bool
done_below none n = true
done_below (some m) n = ltb m n

-- Channels get their numbers in order.
unfoldable pub is_numbered : StunBind → Bool
is_numbered b = all_below b.opened b.closed && done_below b.done b.opened

is_closed_none : (n : ℕ) (ms : List ℕ) → all_below n ms ≡ true → is_closed ms n ≡ false
unfolding all_below is_closed
is_closed_none n [] h = refl
is_closed_none n (m ∷ ms) h = ground (arith, is_closed_none n ms)

all_below_suc : (n : ℕ) (ms : List ℕ) → all_below n ms ≡ true → all_below (n + 1) ms ≡ true
unfolding all_below
all_below_suc n [] h = refl
all_below_suc n (m ∷ ms) h = ground (arith, all_below_suc n ms)

close_done_below :
    (done : Option ℕ) (closed : List ℕ) (n : ℕ)
    → (all_below n closed && done_below done n) ≡ true
    → all_below n (close_done done closed) ≡ true
unfolding all_below
close_done_below none closed n h = ground (arith, h)
close_done_below (some m) closed n h = ground (arith, h)

after_call-is_numbered :
    (b : StunBind) (c : BindCall) → is_numbered b ≡ true → is_numbered (after_call b c) ≡ true
unfolding is_numbered open_bind close_bind
after_call-is_numbered b opens h = ground (arith, h, all_below_suc b.opened b.closed)
after_call-is_numbered b closes h = ground (arith, h, close_done_below b.done b.closed b.opened)

calls-is_numbered :
    (b : StunBind) (cs : List BindCall) → is_numbered b ≡ true → is_numbered (calls b cs) ≡ true
unfolding calls
calls-is_numbered b [] h = h
calls-is_numbered b (c ∷ cs) h =
    calls-is_numbered (after_call b c) cs (after_call-is_numbered b c h)

-- Whether the channels of all receive functions are closed, and whether one is.
unfoldable pub all_closed : List ℕ → List ReceiveFunc → Bool
all_closed closed [] = true
all_closed closed (r ∷ rs) = is_closed closed r.done && all_closed closed rs

unfoldable pub any_closed : List ℕ → List ReceiveFunc → Bool
any_closed closed [] = false
any_closed closed (r ∷ rs) = is_closed closed r.done || any_closed closed rs

-- A read of a socket that the bind has is given a deadline in the past.
abbrev pub wakes : StunBind → Bool
wakes b = (not b.conn4 || b.expired4) && (not b.conn6 || b.expired6)

abbrev pub waits : StunBind → Bool
waits b = (not b.conn4 || not b.expired4) && (not b.conn6 || not b.expired6)

abbrev pub new_bind : Bool → Bool → StunBind
new_bind conn4 conn6 = record {
  conn4 = conn4;
  conn6 = conn6;
  opened = 0;
  done = none;
  closed = [];
  expired4 = false;
  expired6 = false;
}

-- After any calls of `Open` and `Close`: opening gives receive functions whose channel is not closed,
-- and no socket that the bind has is left with a read deadline in the past; closing then closes the
-- channel of each of them, and gives each of these sockets a read deadline in the past; and closing
-- once more closes no channel.
pub open_bind-close_bind :
    (conn4 conn6 : Bool) (cs : List BindCall)
    → (any_closed
          (open_bind (calls (new_bind conn4 conn6) cs)).0.closed
          (open_bind (calls (new_bind conn4 conn6) cs)).1
        ≡ false)
      × (waits (open_bind (calls (new_bind conn4 conn6) cs)).0 ≡ true)
      × (all_closed
            (close_bind (open_bind (calls (new_bind conn4 conn6) cs)).0).closed
            (open_bind (calls (new_bind conn4 conn6) cs)).1
          ≡ true)
      × (wakes (close_bind (open_bind (calls (new_bind conn4 conn6) cs)).0) ≡ true)
      × ((close_bind (close_bind (open_bind (calls (new_bind conn4 conn6) cs)).0)).closed
          ≡ (close_bind (open_bind (calls (new_bind conn4 conn6) cs)).0).closed)
open_bind-close_bind conn4 conn6 cs = cycle (calls (new_bind conn4 conn6) cs) numbered
  where
    numbered : is_numbered (calls (new_bind conn4 conn6) cs) ≡ true
    numbered = calls-is_numbered (new_bind conn4 conn6) cs (unfold is_numbered all_below in refl)

    cycle :
        (b : StunBind)
        → is_numbered b ≡ true
        → (any_closed (open_bind b).0.closed (open_bind b).1 ≡ false)
          × (waits (open_bind b).0 ≡ true)
          × (all_closed (close_bind (open_bind b).0).closed (open_bind b).1 ≡ true)
          × (wakes (close_bind (open_bind b).0) ≡ true)
          × ((close_bind (close_bind (open_bind b).0)).closed ≡ (close_bind (open_bind b).0).closed)
    cycle b h =
        let unused = is_closed_none b.opened b.closed (unfold is_numbered in ground (arith, h)) in
        unfold open_bind close_bind any_closed all_closed is_closed in
        (
          ground (arith, unused),
          ground arith,
          ground (arith, unused),
          ground arith,
          ground (arith, unused),
        )
