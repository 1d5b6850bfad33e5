-- ===== src/Api/Request.antt =====
-- api.go, `apiRequestContext`, and the request of `fetchMetadataContext`. The HTTP client and the
-- decoder of a response are arguments, and an error that is returned has its text.
pub mod Classified
use teleport_client.Base.{
  ℕ, Bool, true, false, not, ◌||◌, Option, none, some, List, [], ◌∷◌, ◌++◌, Text, codes, leb, ◌==◌,
  if◌then◌else◌, is_empty, is_nonempty, has_byte, query_escape,
}
use teleport_client.Api.{RequestError, api_error, other_error, ApiResponse, empty_response}
use teleport_client.Redaction.{
  Value, Fields, DebugLine, collect_sensitive_strings, debug_api_error_response, redact_api_error,
}

-- What `client.Do` comes to: no request could be made, no response with the error's text and whether the
-- context is done, or a response with its status, the text of it, and the body as far as it was read.
pub data HttpReply : Type 0 where
  bad_request : HttpReply
  no_reply : Bool → Text → HttpReply
  reply : ℕ → Text → Text → HttpReply

pub record HttpLib : Type 0 where
  pub send : Text → Text → Option Text → HttpReply
  pub decode : Text → Option ApiResponse
  pub unmarshal_value : Text → Option Value
  pub unmarshal_object : Text → Option Fields
  pub marshal_object : Fields → Option Text

-- A request returns an error, with its text, or a response; and there may be a line in the debug log.
pub data ApiResult : Type 0 where
  refused : RequestError → Text → ApiResult
  succeeded : ApiResponse → ApiResult

abbrev pub api_base : Text
api_base = codes "https://cloudaccess.svc.ui.com/teleport"

unfoldable pub request_url : Text → Text → Text → Text
unfolding query_escape
request_url base_url path token =
    let url = base_url ++ path in
    if is_empty token
    then url
    else url
      ++ ((if has_byte b'?' url then codes "&" else codes "?")
          ++ (codes "token=" ++ query_escape token))

abbrev pub call_text : Text → Text → Text
call_text method path = codes "api " ++ (method ++ (codes " " ++ path))

abbrev pub body_text : Option Text → Text
body_text none = []
body_text (some body) = body

module _ (http : HttpLib) where
  abbrev pub decoded_reply : Option ApiResponse → ApiResult
  decoded_reply none = refused other_error (codes "")
  decoded_reply (some out) = succeeded out

  -- Of a response: the error or the result, and the line that is logged of an error.
  unfoldable pub on_reply :
      Text → Text → Text → Option Text → HttpReply → ApiResult × Option DebugLine
  unfolding collect_sensitive_strings debug_api_error_response redact_api_error
  on_reply method path token body bad_request = (refused other_error (codes ""), none)
  on_reply method path token body (no_reply context_done message) = (
    refused (api_error 0) (
        if context_done
        then call_text method path ++ (codes " request canceled: " ++ message)
        else call_text method path
          ++ (codes " request failed: " ++ redact_api_error message token)),
    none,
  )
  on_reply method path token body (reply status status_text bytes) =
      if leb 400 status
      then (
        refused (api_error status) (
            call_text method path
            ++ (codes ": " ++ (status_text ++ codes " (response body omitted)"))),
        some (
            debug_api_error_response http.unmarshal_object http.marshal_object bytes
              (token ∷ collect_sensitive_strings http.unmarshal_value (body_text body))),
      )
      else if status == 202 || is_empty bytes
      then (succeeded (empty_response status), none)
      else (decoded_reply (http.decode bytes), none)

  abbrev pub sent_request : Text → Text → Text → Text → Option Text → ApiResult × Option DebugLine
  sent_request base_url method path token body =
      on_reply method path token body (http.send method (request_url base_url path token) body)

  -- The body as marshalled: `none` without one, `some none` where it cannot be marshalled.
  unfoldable pub api_request :
      Text → Text → Text → Text → Option (Option Text) → ApiResult × Option DebugLine
  unfolding on_reply request_url
  api_request base_url method path token none = sent_request base_url method path token none
  api_request base_url method path token (some none) = (refused other_error (codes ""), none)
  api_request base_url method path token (some (some body)) =
      sent_request base_url method path token (some body)
