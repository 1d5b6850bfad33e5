-- ===== src/Api/Polling.antt =====
-- What the polling returns: a wanted response at the first place, an error for a reason, or nothing.
use teleport_client.Base.{
  ℕ, zero, suc, ◌+◌, ◌≤◌, ◌<◌, ◌≡◌, refl, subst, ◌∙◌, Bool, true, false, not, ◌||◌, Text, text_eq,
  leb, if◌then◌else◌, arith, Bool-cases, inl, inr, ◌⊎◌,
}
use teleport_client.Api.{
  is_transient_api_error, PollAnswer, wait_cancelled, failed, answered, PollResult, context_error,
  request_error, response, nothing, poll_round, poll_from, poll_for_response,
  max_consecutive_poll_errors,
}

abbrev pub is_wanted : Text → PollAnswer → Bool
is_wanted want (answered poll) = text_eq poll.response_type want
is_wanted want _ = false

abbrev pub is_transient_failure : PollAnswer → Bool
is_transient_failure (failed err) = is_transient_api_error err
is_transient_failure _ = false

-- An answer that ends the polling at once, and is not a response.
abbrev pub is_fatal : PollAnswer → Bool
is_fatal wait_cancelled = true
is_fatal (failed err) = not (is_transient_api_error err)
is_fatal (answered poll) = false

-- How many transient failures in a row end at the round before `i`.
unfoldable pub failures_before : (ℕ → PollAnswer) → ℕ → ℕ
failures_before world zero = 0
failures_before world (suc i) =
    let before = failures_before world i in if is_transient_failure (world i) then before + 1 else 0

-- Whether a round ends the polling.
abbrev pub ends_at : (ℕ → PollAnswer) → Text → ℕ → Bool
ends_at world want i =
    is_wanted want (world i)
    || (is_fatal (world i) || leb max_consecutive_poll_errors (failures_before world (suc i)))

-- What the answer of the round that ends the polling makes of it.
abbrev pub result_of : PollAnswer → PollResult
result_of wait_cancelled = context_error
result_of (failed err) = request_error err
result_of (answered poll) = response poll

-- The first round from `i` on that ends the polling decides its result.
unfoldable pub result_from : (ℕ → PollAnswer) → Text → ℕ → ℕ → PollResult
result_from world want i zero = nothing
result_from world want i (suc left) =
    let rest = result_from world want (suc i) left in
    if ends_at world want i then result_of (world i) else rest

round-ends :
    (want : Text) (before : ℕ) (again : ℕ → PollResult) (a : PollAnswer) (rest : PollResult)
    → again (if is_transient_failure a then before + 1 else 0) ≡ rest
    → poll_round want before again a ≡ (
        if is_wanted want a
          || (is_fatal a
              || leb max_consecutive_poll_errors (if is_transient_failure a then before + 1 else 0))
        then result_of a
        else rest)
unfolding poll_round
round-ends want before again wait_cancelled rest e = refl
round-ends want before again (failed err) rest e = ground (arith, e)
round-ends want before again (answered poll) rest e = ground (arith, e)

poll_from-result_from :
    (world : ℕ → PollAnswer) (want : Text) (i left : ℕ)
    → poll_from world want (failures_before world i) i left ≡ result_from world want i left
unfolding poll_from result_from failures_before
poll_from-result_from world want i zero = refl
poll_from-result_from world want i (suc left) =
    round-ends want (failures_before world i) (λ errors. poll_from world want errors (suc i) left)
      (world i) (result_from world want (suc i) left)
      (poll_from-result_from world want (suc i) left)

ℕ-cases : (i j : ℕ) → i ≤ j → (i ≡ j) ⊎ (suc i ≤ j)
ℕ-cases i j h = omega (arith, h)

record FirstEnd (world : ℕ → PollAnswer) (want : Text) (i left k : ℕ) : Type 0 where
  after : i ≤ k
  before : k < i + left
  ends : ends_at world want k ≡ true
  first : (j : ℕ) → i ≤ j → j < k → ends_at world want j ≡ false
  result : result_from world want i left ≡ result_of (world k)

result_from-cases :
    (world : ℕ → PollAnswer) (want : Text) (i left : ℕ)
    → ((k : ℕ) × FirstEnd world want i left k)
      ⊎ (((j : ℕ) → i ≤ j → j < i + left → ends_at world want j ≡ false)
          × (result_from world want i left ≡ nothing))
unfolding result_from
result_from-cases world want i zero = inr (λ j h1 h2. ground (arith, h1, h2), refl)
result_from-cases world want i (suc left) = elim (Bool-cases (ends_at world want i)) [
  | inl e ↦ inl (
    i,
    record {
      after = omega arith;
      before = omega arith;
      ends = e;
      first = λ j h1 h2. ground (arith, h1, h2);
      result = rw (e, result_from) refl;
    },
  )
  | inr e ↦ later e (result_from-cases world want (suc i) left)
]
  where
    from_next :
        (j : ℕ)
        → ends_at world want i ≡ false
        → i ≤ j
        → (suc i ≤ j → ends_at world want j ≡ false)
        → ends_at world want j ≡ false
    from_next j e h next = elim (ℕ-cases i j h) [
      | inl same ↦ subst (λ k. ends_at world want k ≡ false) same e
      | inr less ↦ next less
    ]

    later :
        ends_at world want i ≡ false
        → ((k : ℕ) × FirstEnd world want (suc i) left k)
          ⊎ (((j : ℕ) → suc i ≤ j → j < suc i + left → ends_at world want j ≡ false)
              × (result_from world want (suc i) left ≡ nothing))
        → ((k : ℕ) × FirstEnd world want i (suc left) k)
          ⊎ (((j : ℕ) → i ≤ j → j < i + suc left → ends_at world want j ≡ false)
              × (result_from world want i (suc left) ≡ nothing))
    later e (inl (k, f)) = inl (
      k,
      record {
        after = omega (arith, f.after);
        before = omega (arith, f.before);
        ends = f.ends;
        first = λ j h1 h2. from_next j e h1 (λ h. f.first j h h2);
        result = rw (e, result_from) f.result;
      },
    )
    later e (inr (none_ends, no_result)) = inr (
      λ j h1 h2. from_next j e h1 (λ h. none_ends j h (omega (arith, h2))),
      rw (e, result_from) no_result,
    )

-- Whether one of the first `k` rounds ends the polling.
unfoldable pub ended_before : (ℕ → PollAnswer) → Text → ℕ → Bool
ended_before world want zero = false
ended_before world want (suc k) = ended_before world want k || ends_at world want k

ended_before-none :
    (world : ℕ → PollAnswer) (want : Text) (k : ℕ)
    → ((j : ℕ) → j < k → ends_at world want j ≡ false)
    → ended_before world want k ≡ false
unfolding ended_before
ended_before-none world want zero h = refl
ended_before-none world want (suc k) h =
    rw (ended_before-none world want k (λ j e. h j (omega (arith, e))), h k (omega arith)) refl

-- The polling is decided by the first of its rounds that brings the wanted response, an error that is
-- not transient, the end of the context, or the fifth transient error in a row: the result is then
-- that response or error. When no round within the limit does, the result is nothing.
pub poll_for_response_lem :
    (world : ℕ → PollAnswer) (want : Text) (max_tries : ℕ)
    → ((k : ℕ) × (k < max_tries)
        × (ended_before world want k ≡ false)
        × (ends_at world want k ≡ true)
        × (poll_for_response world want max_tries ≡ result_of (world k)))
      ⊎ ((ended_before world want max_tries ≡ false)
          × (poll_for_response world want max_tries ≡ nothing))
unfolding poll_for_response failures_before
poll_for_response_lem world want max_tries = elim (result_from-cases world want 0 max_tries) [
  | inl (k, f) ↦ inl (
    k,
    omega (arith, f.before),
    ended_before-none world want k (λ j h. f.first j (omega arith) h),
    f.ends,
    poll_from-result_from world want 0 max_tries ∙ f.result,
  )
  | inr (none_ends, no_result) ↦ inr (
    ended_before-none world want max_tries (λ j h. none_ends j (omega arith) (omega (arith, h))),
    poll_from-result_from world want 0 max_tries ∙ no_result,
  )
]
