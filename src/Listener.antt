-- ===== src/Listener.antt =====
-- nomination.go and stun.go: the early listener, its log, and the answer to a STUN Binding Request.
-- The STUN codec is the parameter `lib`. An entry of the log is without the hexadecimal prefix of the
-- packet and the names of message types other than the Binding Request's.
pub mod Guard
pub mod Stopping
pub mod Stopped
use teleport_client.Base.{
  ℕ, ◌+◌, Bool, true, false, not, ◌&&◌, Option, none, some, is_some, List, [], ◌∷◌, ◌++◌, map, Text,
  ℤ, is_nonempty, contains, length, drop, leb, if◌then◌else◌,
}
use teleport_client.Nomination.{NominationTracker, observe}
use teleport_client.Candidates.{Candidate, addrs_of}

-- Of the STUN library: whether a datagram decodes, and then whether it is a Binding Request, whether
-- its integrity holds under a secret, the wait of its nomination attribute, and the success response.
pub record StunLib : Type 0 where
  pub decodes : Text → Bool
  pub is_binding_request : Text → Bool
  pub check_integrity : Text → Text → Bool
  pub nomination_wait : Text → Option ℤ
  pub success : Text → Text → Text

pub record PacketLog : Type 0 where
  pub inbound : Bool
  pub addr : Text
  pub bytes : ℕ
  pub is_stun : Bool
  pub is_request : Bool

-- `allowed` is `none` for a listener without a restriction; `sent` are the responses and where to.
pub record EarlyListener : Type 0 where
  pub allowed : Option (List Text)
  pub logs : List PacketLog
  pub nomination : NominationTracker
  pub sent : List (Text × Text)

unfoldable pub new_early_nomination_listener : NominationTracker → EarlyListener
new_early_nomination_listener t = record { allowed = none; logs = []; nomination = t; sent = [] }

unfoldable pub restrict_to_candidates : EarlyListener → List Candidate → EarlyListener
restrict_to_candidates l candidates = record l { allowed = some (addrs_of candidates) }

unfoldable pub allows : Option (List Text) → Text → Bool
allows none addr = true
allows (some addrs) addr = contains addrs addr

abbrev pub max_early_nomination_logs : ℕ
max_early_nomination_logs = 500

unfoldable pub append_log : List PacketLog → PacketLog → List PacketLog
append_log logs p =
    if leb max_early_nomination_logs (length logs) then drop 1 logs ++ p ∷ [] else logs ++ p ∷ []

module _ (lib : StunLib) (stun_secret : Text) where
  abbrev pub valid_stun_integrity : Text → Bool
  valid_stun_integrity message = is_nonempty stun_secret && lib.check_integrity stun_secret message

  abbrev with_response :
      Text → Option (NominationTracker × Bool) → Option (NominationTracker × Option Text)
  with_response response none = none
  with_response response (some (t, selected)) = some (t, some response)

  abbrev observe_wait :
      NominationTracker → Text → Option ℤ → Text → Option (NominationTracker × Option Text)
  observe_wait t addr none response = some (t, some response)
  observe_wait t addr (some wait_ms) response = with_response response (observe t addr wait_ms)

  -- The tracker after the request, and the response if the request is accepted.
  unfoldable pub respond_to_stun_binding_request :
      NominationTracker → Text → Text → Option (NominationTracker × Option Text)
  unfolding observe
  respond_to_stun_binding_request t addr message =
      if not (valid_stun_integrity message)
      then some (t, none)
      else observe_wait t addr (lib.nomination_wait message) (lib.success stun_secret message)

  unfoldable pub log_packet : Bool → Text → Text → PacketLog
  log_packet inbound addr message = record {
    inbound = inbound;
    addr = addr;
    bytes = length message;
    is_stun = lib.decodes message;
    is_request = lib.decodes message && lib.is_binding_request message;
  }

  abbrev answer :
      EarlyListener → Text → Option (NominationTracker × Option Text) → Option EarlyListener
  answer l addr none = none
  answer l addr (some (t, none)) = some (record l { nomination = t })
  answer l addr (some (t, some response)) = some (record l {
    nomination = t;
    sent = l.sent ++ (addr, response) ∷ [];
    logs = append_log l.logs (log_packet false addr response);
  })

  -- One packet of `readLoop`.
  unfoldable pub read_packet : EarlyListener → Text → Text → Option EarlyListener
  unfolding allows append_log log_packet respond_to_stun_binding_request
  read_packet l addr message =
      let logged = record l { logs = append_log l.logs (log_packet true addr message) } in
      if not (allows l.allowed addr)
      then some l
      else if not (lib.decodes message && lib.is_binding_request message)
      then some logged
      else answer logged addr (respond_to_stun_binding_request l.nomination addr message)

  unfoldable pub read_loop : EarlyListener → List (Text × Text) → Option EarlyListener
  read_loop l [] = some l
  read_loop l ((addr, message) ∷ packets) = elim (read_packet l addr message) [
    | none ↦ none
    | some l' ↦ read_loop l' packets
  ]
