-- ===== src/Listener/Stopping.antt =====
-- nomination.go, `udpReadStopper` and `readUDPPacket`: how the goroutines that read the sockets are
-- stopped. `Stop` and the readers take turns in any order; a read whose deadline has passed fails.
use teleport_client.Base.{
  Bool, true, false, not, ◌&&◌, Option, none, some, List, [], ◌∷◌, ◌++◌, if◌then◌else◌,
}

-- A goroutine before its test of `done`, in ReadFromUDP, with a packet, or ended.
pub data Reader : Type 0 where
  testing parked holding ended : Reader

-- `Stop` before its call, and after each of its calls in turn.
pub data StopStage : Type 0 where
  running done_closed deadline_set waited stopped : StopStage

pub record UdpReadStopper : Type 0 where
  pub stage : StopStage
  pub done : Bool
  pub expired : Bool
  pub readers : List Reader

unfoldable pub new_udp_read_stopper : UdpReadStopper
new_udp_read_stopper = record { stage = running; done = false; expired = false; readers = [] }

unfoldable pub start_reader : Bool → List Reader → List Reader
start_reader present readers = if present then readers ++ testing ∷ [] else readers

-- One turn of `readUDPPacket` in a loop, with whether a packet arrives before an error.
unfoldable pub read_udp_packet : Bool → Bool → Bool → Reader → Reader
read_udp_packet done expired arrives testing = if done then ended else parked
read_udp_packet done expired arrives parked = if not expired && arrives then holding else ended
read_udp_packet done expired arrives holding = testing
read_udp_packet done expired arrives ended = ended

-- A turn for each reader that has one.
unfoldable pub turns : Bool → Bool → List (Option Bool) → List Reader → List Reader
turns done expired (some arrives ∷ os) (r ∷ rs) =
    read_udp_packet done expired arrives r ∷ turns done expired os rs
turns done expired (none ∷ os) (r ∷ rs) = r ∷ turns done expired os rs
turns done expired os rs = rs

unfoldable pub all_ended : List Reader → Bool
all_ended [] = true
all_ended (ended ∷ rs) = all_ended rs
all_ended (r ∷ rs) = false

-- The next call of `Stop`; the wait goes on until every reader has ended.
unfoldable pub stop_step : UdpReadStopper → StopStage → UdpReadStopper
stop_step u running = record u { stage = done_closed; done = true }
stop_step u done_closed = record u { stage = deadline_set; expired = true }
stop_step u deadline_set = if all_ended u.readers then record u { stage = waited } else u
stop_step u waited = record u { stage = stopped; expired = false }
stop_step u stopped = u

pub data StopperEvent : Type 0 where
  start : Bool → StopperEvent
  turn : List (Option Bool) → StopperEvent
  stop : StopperEvent

unfoldable pub stopper_step : UdpReadStopper → StopperEvent → UdpReadStopper
stopper_step u (start present) = record u { readers = start_reader present u.readers }
stopper_step u (turn os) = record u { readers = turns u.done u.expired os u.readers }
stopper_step u stop = stop_step u u.stage

unfoldable pub run_stopper : UdpReadStopper → List StopperEvent → UdpReadStopper
run_stopper u [] = u
run_stopper u (e ∷ es) = run_stopper (stopper_step u e) es
