-- ===== src/Tests/Polling.antt =====
-- api.go, the polling, on a world that fails once and then answers.
use teleport_client.Base.{ℕ, zero, suc, ◌<◌, ◌≡◌, true, false, codes, ◌⊎◌}
use teleport_client.Api.{
  PollAnswer, failed, answered, api_error, poll_for_response, nothing, empty_response,
}
use teleport_client.Api.Polling.{ended_before, ends_at, result_of, poll_for_response_lem}

abbrev world : ℕ → PollAnswer
world zero = failed (api_error 503)
world (suc i) = answered (record (empty_response 200) { response_type = codes "CONNECT_RESPONSE" })

poll_for_response_lem_example :
    ((k : ℕ) × (k < 3)
      × (ended_before world (codes "CONNECT_RESPONSE") k ≡ false)
      × (ends_at world (codes "CONNECT_RESPONSE") k ≡ true)
      × (poll_for_response world (codes "CONNECT_RESPONSE") 3 ≡ result_of (world k)))
    ⊎ ((ended_before world (codes "CONNECT_RESPONSE") 3 ≡ false)
        × (poll_for_response world (codes "CONNECT_RESPONSE") 3 ≡ nothing))
poll_for_response_lem_example = poll_for_response_lem world (codes "CONNECT_RESPONSE") 3
