-- ===== src/Pairing/Exchange.antt =====
-- What a request that is answered has received: a response of the type that it waits for.
use teleport_client.Base.{
  ℕ, ◌<◌, ◌≡◌, refl, sym, ap, subst, ◌∙◌, true, Option, some, Text, text_eq, arith, inl, inr,
}
use teleport_client.Api.{
  ApiResponse, IceServer, PollAnswer, PollResult, wait_cancelled, answered, context_error,
  request_error, response, nothing, poll_for_response,
}
use teleport_client.Api
use teleport_client.Api.Polling.{ends_at, result_of, failures_before, poll_for_response_lem}
use teleport_client.Api.Request.{ApiResult, refused, succeeded}
use teleport_client.Pairing.{
  Cloud, Payload, Outcome, failed, returned, polled, awaited, request_and_await,
}

-- One of the first rounds has brought this response, and it has the wanted type.
abbrev pub IsAnswer : (ℕ → PollAnswer) → Text → ℕ → ApiResponse → Type 0
IsAnswer world want max_tries answer =
    (k : ℕ) × (k < max_tries)
    × (world k ≡ answered answer)
    × (text_eq answer.response_type want ≡ true)

module _ (world : ℕ → PollAnswer) (want : Text) where
  wanted_type :
      (k : ℕ) (answer : ApiResponse)
      → world k ≡ answered answer
      → ends_at world want k ≡ true
      → text_eq answer.response_type want ≡ true
  unfolding failures_before
  wanted_type k answer e ends = ground (arith, e, ends)

  answered-result_of :
      (a : PollAnswer) (answer : ApiResponse) → result_of a ≡ response answer → a ≡ answered answer
  answered-result_of wait_cancelled answer e = cc
  answered-result_of (Api.failed err) answer e = cc
  answered-result_of (answered r) answer e = cc

  poll_for_response-IsAnswer :
      (max_tries : ℕ) (answer : ApiResponse)
      → poll_for_response world want max_tries ≡ response answer
      → IsAnswer world want max_tries answer
  poll_for_response-IsAnswer max_tries answer e =
      elim (poll_for_response_lem world want max_tries) [
        | inl (k, before, none_before, ends, same) ↦
            let found = answered-result_of (world k) answer (sym same ∙ e) in
            (k, before, found, wanted_type k answer found ends)
        | inr (none_ends, same) ↦ never (sym same ∙ e)
      ]
    where
      never : nothing ≡ response answer → IsAnswer world want max_tries answer
      never h = (0, cc, cc, cc)

-- A request that returns an answer was itself answered, and the answer came in one of the rounds of its
-- wait, under the token and the identifier of the request, with the type that it waits for.
pub request_and_await_lem :
    (cloud : Cloud) (token : Text) (payload : Payload) (want : Text) (max_tries : ℕ)
    (first answer : ApiResponse)
    → request_and_await cloud token payload want max_tries ≡ returned (first, some answer)
    → (cloud.post token payload ≡ succeeded first)
      × IsAnswer (cloud.poll token first.teleport_request_id) want max_tries answer
request_and_await_lem cloud token payload want max_tries first answer e =
    by_post (cloud.post token payload) (unfold request_and_await in e)
  where
    by_poll :
        (sent : ApiResponse) (p : PollResult)
        → poll_for_response (cloud.poll token sent.teleport_request_id) want max_tries ≡ p
        → ◌≡◌ {A = Outcome (ApiResponse × Option ApiResponse)}
            (elim (polled p) [ failed err ↦ failed err | returned a ↦ returned (sent, a) ])
            (returned (first, some answer))
        → (succeeded sent ≡ succeeded first)
          × IsAnswer (cloud.poll token first.teleport_request_id) want max_tries answer
    by_poll sent context_error same e = (cc, (0, cc, cc, cc))
    by_poll sent (request_error err) same e = (cc, (0, cc, cc, cc))
    by_poll sent nothing same e = (cc, (0, cc, cc, cc))
    by_poll sent (response r) same e =
        let sent_first : sent ≡ first = cc in
        let r_answer : r ≡ answer = cc in
        (
          ap succeeded sent_first,
          poll_for_response-IsAnswer (cloud.poll token first.teleport_request_id) want max_tries
              answer
              (subst
                (λ x.
                  poll_for_response (cloud.poll token x.teleport_request_id) want max_tries
                  ≡ response answer)
                sent_first (same ∙ ap response r_answer)),
        )

    by_post :
        (posted : ApiResult)
        → awaited cloud token want max_tries posted ≡ returned (first, some answer)
        → (posted ≡ succeeded first)
          × IsAnswer (cloud.poll token first.teleport_request_id) want max_tries answer
    by_post (refused err text) e = (cc, (0, cc, cc, cc))
    by_post (succeeded sent) e =
        by_poll sent (poll_for_response (cloud.poll token sent.teleport_request_id) want max_tries)
          refl e
