-- ===== src/Listener/Stopped.antt =====
-- nomination.go, `udpReadStopper`: what holds when `Stop` has returned, and that it returns.
use teleport_client.Base.{
  ◌≡◌, refl, Bool, true, false, not, ◌&&◌, Option, none, some, List, [], ◌∷◌, ◌++◌, map, length,
  if◌then◌else◌, arith,
}
use teleport_client.Listener.Stopping.{
  Reader, testing, parked, holding, ended, StopStage, running, done_closed, deadline_set, waited,
  stopped, UdpReadStopper, new_udp_read_stopper, start_reader, read_udp_packet, turns, all_ended,
  stop_step, StopperEvent, start, turn, stop, stopper_step, run_stopper,
}

-- No reader is in a read or has a packet.
unfoldable pub none_reads : List Reader → Bool
none_reads [] = true
none_reads (parked ∷ rs) = false
none_reads (holding ∷ rs) = false
none_reads (r ∷ rs) = none_reads rs

-- What holds at each stage.
unfoldable pub stage_holds : StopStage → Bool → Bool → List Reader → Bool
stage_holds running done expired rs = not done && not expired
stage_holds done_closed done expired rs = done && not expired
stage_holds deadline_set done expired rs = done && expired
stage_holds waited done expired rs = done && (expired && none_reads rs)
stage_holds stopped done expired rs = done && (not expired && none_reads rs)

all_ended-none_reads : (rs : List Reader) → all_ended rs ≡ true → none_reads rs ≡ true
unfolding all_ended none_reads
all_ended-none_reads [] e = refl
all_ended-none_reads (testing ∷ rs) e = absurd cc
all_ended-none_reads (parked ∷ rs) e = absurd cc
all_ended-none_reads (holding ∷ rs) e = absurd cc
all_ended-none_reads (ended ∷ rs) e = all_ended-none_reads rs e

none_reads-start :
    (rs : List Reader) → none_reads rs ≡ true → none_reads (rs ++ testing ∷ []) ≡ true
unfolding none_reads
none_reads-start [] e = refl
none_reads-start (testing ∷ rs) e = none_reads-start rs e
none_reads-start (parked ∷ rs) e = absurd cc
none_reads-start (holding ∷ rs) e = absurd cc
none_reads-start (ended ∷ rs) e = none_reads-start rs e

none_reads-start_reader :
    (present : Bool) (rs : List Reader)
    → none_reads rs ≡ true
    → none_reads (start_reader present rs) ≡ true
unfolding start_reader
none_reads-start_reader true rs e = none_reads-start rs e
none_reads-start_reader false rs e = e

none_reads-turns :
    (expired : Bool) (os : List (Option Bool)) (rs : List Reader)
    → none_reads rs ≡ true
    → none_reads (turns true expired os rs) ≡ true
unfolding none_reads turns read_udp_packet
none_reads-turns expired [] [] e = refl
none_reads-turns expired [] (r ∷ rs) e = e
none_reads-turns expired (none ∷ os) [] e = refl
none_reads-turns expired (some a ∷ os) [] e = refl
none_reads-turns expired (o ∷ os) (parked ∷ rs) e = absurd cc
none_reads-turns expired (o ∷ os) (holding ∷ rs) e = absurd cc
none_reads-turns expired (none ∷ os) (testing ∷ rs) e = none_reads-turns expired os rs e
none_reads-turns expired (some a ∷ os) (testing ∷ rs) e = none_reads-turns expired os rs e
none_reads-turns expired (none ∷ os) (ended ∷ rs) e = none_reads-turns expired os rs e
none_reads-turns expired (some a ∷ os) (ended ∷ rs) e = none_reads-turns expired os rs e

-- What holds of a stopper.
unfoldable pub holds : UdpReadStopper → Bool
holds u = stage_holds u.stage u.done u.expired u.readers

stage_holds-readers :
    (stage : StopStage) (done expired : Bool) (rs rs' : List Reader)
    → (done ≡ true → none_reads rs ≡ true → none_reads rs' ≡ true)
    → stage_holds stage done expired rs ≡ true
    → stage_holds stage done expired rs' ≡ true
unfolding stage_holds
stage_holds-readers running done expired rs rs' keeps e = e
stage_holds-readers done_closed done expired rs rs' keeps e = e
stage_holds-readers deadline_set done expired rs rs' keeps e = e
stage_holds-readers waited true true rs rs' keeps e = keeps refl e
stage_holds-readers waited true false rs rs' keeps e = absurd cc
stage_holds-readers waited false expired rs rs' keeps e = absurd cc
stage_holds-readers stopped true false rs rs' keeps e = keeps refl e
stage_holds-readers stopped true true rs rs' keeps e = absurd cc
stage_holds-readers stopped false expired rs rs' keeps e = absurd cc

after_wait :
    (b : Bool) (rs : List Reader)
    → all_ended rs ≡ b
    → holds (
        if b
        then record { stage = waited; done = true; expired = true; readers = rs }
        else record { stage = deadline_set; done = true; expired = true; readers = rs })
      ≡ true
unfolding holds stage_holds
after_wait true rs e = all_ended-none_reads rs e
after_wait false rs e = refl

stop_step-holds :
    (stage : StopStage) (done expired : Bool) (rs : List Reader)
    → stage_holds stage done expired rs ≡ true
    → holds
        (stop_step (record { stage = stage; done = done; expired = expired; readers = rs }) stage)
      ≡ true
unfolding holds stop_step stage_holds
stop_step-holds running done false rs e = refl
stop_step-holds running true true rs e = absurd cc
stop_step-holds running false true rs e = absurd cc
stop_step-holds done_closed true expired rs e = refl
stop_step-holds done_closed false expired rs e = absurd cc
stop_step-holds deadline_set true true rs e = after_wait (all_ended rs) rs refl
stop_step-holds deadline_set true false rs e = absurd cc
stop_step-holds deadline_set false expired rs e = absurd cc
stop_step-holds waited true true rs e = e
stop_step-holds waited true false rs e = absurd cc
stop_step-holds waited false expired rs e = absurd cc
stop_step-holds stopped done expired rs e = e

turns-none_reads :
    (done expired : Bool) (os : List (Option Bool)) (rs : List Reader)
    → done ≡ true
    → none_reads rs ≡ true
    → none_reads (turns done expired os rs) ≡ true
turns-none_reads true expired os rs h e = none_reads-turns expired os rs e
turns-none_reads false expired os rs h e = absurd cc

stopper_step-holds :
    (u : UdpReadStopper) (e : StopperEvent) → holds u ≡ true → holds (stopper_step u e) ≡ true
unfolding holds stopper_step
stopper_step-holds u (start present) h =
    stage_holds-readers u.stage u.done u.expired u.readers (start_reader present u.readers)
      (λ d. none_reads-start_reader present u.readers) h
stopper_step-holds u (turn os) h =
    stage_holds-readers u.stage u.done u.expired u.readers (turns u.done u.expired os u.readers)
      (turns-none_reads u.done u.expired os u.readers) h
stopper_step-holds u stop h = stop_step-holds u.stage u.done u.expired u.readers h

run_stopper-holds :
    (u : UdpReadStopper) (es : List StopperEvent) → holds u ≡ true → holds (run_stopper u es) ≡ true
unfolding run_stopper
run_stopper-holds u [] h = h
run_stopper-holds u (e ∷ es) h = run_stopper-holds (stopper_step u e) es (stopper_step-holds u e h)

reached : (es : List StopperEvent) → holds (run_stopper new_udp_read_stopper es) ≡ true
reached es =
    run_stopper-holds new_udp_read_stopper es
      (unfold holds new_udp_read_stopper stage_holds in refl)

at_stopped :
    (stage : StopStage) (done expired : Bool) (rs : List Reader)
    → stage ≡ stopped
    → stage_holds stage done expired rs ≡ true
    → (expired ≡ false) × (none_reads rs ≡ true)
unfolding stage_holds
at_stopped stopped true false rs s e = (refl, e)
at_stopped stopped true true rs s e = absurd cc
at_stopped stopped false expired rs s e = absurd cc
at_stopped running done expired rs s e = absurd cc
at_stopped done_closed done expired rs s e = absurd cc
at_stopped deadline_set done expired rs s e = absurd cc
at_stopped waited done expired rs s e = absurd cc

-- Whatever the order of the starts, the turns of the readers and the calls of `Stop`: once `Stop` has
-- returned no reader reads a socket or holds a packet, and the read deadline is clear.
pub run_stopper-stopped :
    (es : List StopperEvent)
    → (run_stopper new_udp_read_stopper es).stage ≡ stopped
    → ((run_stopper new_udp_read_stopper es).expired ≡ false)
      × (none_reads (run_stopper new_udp_read_stopper es).readers ≡ true)
run_stopper-stopped es s =
    let u = run_stopper new_udp_read_stopper es in
    at_stopped u.stage u.done u.expired u.readers s (unfold holds in reached es)

-- Two turns end a reader that is told to stop.
all_ended-turns :
    (xs ys : List Bool) (rs : List Reader)
    → length xs ≡ length rs
    → length ys ≡ length rs
    → all_ended (turns true true (map some ys) (turns true true (map some xs) rs)) ≡ true
unfolding all_ended turns read_udp_packet
all_ended-turns [] [] [] h g = refl
all_ended-turns (x ∷ xs) ys [] h g = absurd omega (arith, h)
all_ended-turns [] (y ∷ ys) [] h g = absurd omega (arith, g)
all_ended-turns [] ys (r ∷ rs) h g = absurd omega (arith, h)
all_ended-turns (x ∷ xs) [] (r ∷ rs) h g = absurd omega (arith, g)
all_ended-turns (x ∷ xs) (y ∷ ys) (testing ∷ rs) h g =
    all_ended-turns xs ys rs (omega arith) (omega arith)
all_ended-turns (x ∷ xs) (y ∷ ys) (parked ∷ rs) h g =
    all_ended-turns xs ys rs (omega arith) (omega arith)
all_ended-turns (x ∷ xs) (y ∷ ys) (holding ∷ rs) h g =
    all_ended-turns xs ys rs (omega arith) (omega arith)
all_ended-turns (x ∷ xs) (y ∷ ys) (ended ∷ rs) h g =
    all_ended-turns xs ys rs (omega arith) (omega arith)

at_deadline_set :
    (stage : StopStage) (done expired : Bool) (rs : List Reader)
    → stage ≡ deadline_set
    → stage_holds stage done expired rs ≡ true
    → (xs ys : List Bool) → length xs ≡ length rs
    → length ys ≡ length rs
    → (run_stopper
        (record { stage = stage; done = done; expired = expired; readers = rs })
        (turn (map some xs) ∷ turn (map some ys) ∷ stop ∷ stop ∷ [])).stage
      ≡ stopped
unfolding stage_holds run_stopper stopper_step stop_step
at_deadline_set deadline_set true true rs s e xs ys h g = rw (all_ended-turns xs ys rs h g) refl
at_deadline_set deadline_set true false rs s e xs ys h g = absurd cc
at_deadline_set deadline_set false expired rs s e xs ys h g = absurd cc
at_deadline_set running done expired rs s e xs ys h g = absurd cc
at_deadline_set done_closed done expired rs s e xs ys h g = absurd cc
at_deadline_set stopped done expired rs s e xs ys h g = absurd cc
at_deadline_set waited done expired rs s e xs ys h g = absurd cc

-- From any state that is reached and in which `Stop` waits: after two turns of every reader, packets
-- arriving or not, two further calls end `Stop`.
pub run_stopper-stops :
    (es : List StopperEvent) (xs ys : List Bool)
    → (run_stopper new_udp_read_stopper es).stage ≡ deadline_set
    → length xs ≡ length (run_stopper new_udp_read_stopper es).readers
    → length ys ≡ length (run_stopper new_udp_read_stopper es).readers
    → (run_stopper
        (run_stopper new_udp_read_stopper es)
        (turn (map some xs) ∷ turn (map some ys) ∷ stop ∷ stop ∷ [])).stage
      ≡ stopped
run_stopper-stops es xs ys s h g =
    let u = run_stopper new_udp_read_stopper es in
    at_deadline_set u.stage u.done u.expired u.readers s (unfold holds in reached es) xs ys h g
