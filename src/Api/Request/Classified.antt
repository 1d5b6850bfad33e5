-- ===== src/Api/Request/Classified.antt =====
-- Which requests are retried, and what an error's text shows of the token.
use teleport_client.Base.{
  ◌≡◌, refl, Bool, true, false, ◌||◌, Option, none, some, Text, leb, ◌==◌, if◌then◌else◌, is_empty,
  arith, Bool-cases, inl, inr,
}
use teleport_client.Api.{ApiResponse, empty_response, is_transient_api_error}
use teleport_client.Api.Request.{
  HttpReply, bad_request, no_reply, reply, HttpLib, ApiResult, refused, succeeded, on_reply,
  decoded_reply,
}
use teleport_client.Redaction.{DebugLine}

-- The error is one that the polling retries.
abbrev pub is_retried : ApiResult → Bool
is_retried (refused err text) = is_transient_api_error err
is_retried (succeeded response) = false

abbrev pub reply_is_transient : HttpReply → Bool
reply_is_transient bad_request = false
reply_is_transient (no_reply context_done message) = true
reply_is_transient (reply status status_text bytes) = leb 500 status || status == 429

-- A request is retried exactly when there is no response, or one with a status of 500 or more or 429.
pub is_retried-on_reply :
    (http : HttpLib) (method path token : Text) (body : Option Text) (r : HttpReply)
    → is_retried (on_reply http method path token body r).0 ≡ reply_is_transient r
unfolding on_reply is_transient_api_error
is_retried-on_reply http method path token body bad_request = refl
is_retried-on_reply http method path token body (no_reply context_done message) = refl
is_retried-on_reply http method path token body (reply status status_text bytes) =
    elim (Bool-cases (leb 400 status)) [
      | inl e ↦ rw e (ground (arith, e))
      | inr e ↦ rw (e, small e) (accepted (status == 202 || is_empty bytes) (http.decode bytes))
    ]
  where
    small : leb 400 status ≡ false → (leb 500 status || status == 429) ≡ false
    small e = ground (arith, e)

    accepted :
        (is_done : Bool) (o : Option ApiResponse)
        → is_retried
            (if◌then◌else◌ {A = ApiResult × Option DebugLine} is_done
              (succeeded (empty_response status), none)
              (decoded_reply http o, none)).0
          ≡ false
    accepted true o = refl
    accepted false none = refl
    accepted false (some out) = refl
