-- ===== src/Tests/Redacting.antt =====
-- api.go, on an error of the cloud that repeats a secret.
use teleport_client.Base.{
  ◌≡◌, refl, true, none, [], ◌∷◌, codes, text_eq, query_escape, contains, has_prefix, has_infix,
}
use teleport_client.Redaction.{
  Fields, string, number, object, array, nil, cons, end, field, redact_api_value, diagnostic_of,
  diagnostic_keys,
}
use teleport_client.Redaction.Replacing.{is_foreign, lacks}
use teleport_client.Redaction.Secrets.{is_redactable}
use teleport_client.Redaction.Leaves.{
  is_covered, is_covered-redact_api_value, leaves_lack, fields_lack, leaves_lack-redact_api_value,
}
use teleport_client.Api.Request.{HttpLib, reply, on_reply}
use teleport_client.Api.Request.Classified.{is_retried, is_retried-on_reply}

abbrev body : Fields
body = field (codes "error") (string (codes "bad key abc+1")) (
    field (codes "client_secret")
      (array (cons (string (codes "xyz")) (cons (number (codes "42")) nil))) end)

is_covered-redact_api_value_example :
    is_covered (redact_api_value (codes "abc+1" ∷ []) (object body)) ≡ true
is_covered-redact_api_value_example = is_covered-redact_api_value (codes "abc+1" ∷ []) (object body)

leaves_lack-redact_api_value_example :
    (leaves_lack (codes "abc+1") (redact_api_value (codes "abc+1" ∷ []) (object body)) ≡ true)
    × (leaves_lack
          (query_escape (codes "abc+1"))
          (redact_api_value (codes "abc+1" ∷ []) (object body))
        ≡ true)
    × (fields_lack (codes "abc+1") (diagnostic_of (codes "abc+1" ∷ []) diagnostic_keys body) ≡ true)
    × (fields_lack
          (query_escape (codes "abc+1"))
          (diagnostic_of (codes "abc+1" ∷ []) diagnostic_keys body)
        ≡ true)
leaves_lack-redact_api_value_example =
    leaves_lack-redact_api_value (codes "abc+1" ∷ []) (codes "abc+1") (object body) body
      (unfold contains text_eq in refl)
      (unfold is_redactable is_foreign has_infix has_prefix lacks in refl)
      (unfold is_redactable is_foreign has_infix has_prefix lacks query_escape in refl)

abbrev http : HttpLib
http = record {
  send = λ method url sent. reply 429 (codes "429 Too Many Requests") (codes "{}");
  decode = λ bytes. none;
  unmarshal_value = λ bytes. none;
  unmarshal_object = λ bytes. none;
  marshal_object = λ fields. none;
}

is_retried-on_reply_example :
    is_retried
      (on_reply http
        (codes "GET")
        (codes "/id")
        (codes "tok")
        none
        (reply 429 (codes "429 Too Many Requests") (codes "{}"))).0
    ≡ true
is_retried-on_reply_example =
    is_retried-on_reply http (codes "GET") (codes "/id") (codes "tok") none
      (reply 429 (codes "429 Too Many Requests") (codes "{}"))
