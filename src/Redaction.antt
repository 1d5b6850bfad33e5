-- ===== src/Redaction.antt =====
-- api.go, the redaction of what the client logs about an error of the cloud, with logging.go's
-- `sensitiveLogKey`. A JSON value is a tree; the decoder and the encoder of JSON are arguments, and the
-- text that is logged is a list of code points.
pub mod Replacing
pub mod Secrets
pub mod Leaves
use teleport_client.Base.{
  ℕ, Bool, true, false, not, ◌&&◌, ◌||◌, Option, none, some, List, [], ◌∷◌, ◌++◌, map, Text, codes,
  ℤ, sub_ℕ, leb, ◌==◌, if◌then◌else◌, is_empty, is_nonempty, length, take, to_lower, has_infix,
  replace_all, query_escape, sort_by_score, text_eq,
}

mutual
  pub data Value : Type 0 where
    null : Value
    boolean : Bool → Value
    number : Text → Value
    string : Text → Value
    array : Items → Value
    object : Fields → Value

  pub data Items : Type 0 where
    nil : Items
    cons : Value → Items → Items

  pub data Fields : Type 0 where
    end : Fields
    field : Text → Value → Fields → Fields

abbrev pub redacted_log_value : Text
redacted_log_value = codes "[REDACTED]"

abbrev pub underscored : Text → Text
underscored = map (λ c. if c == b'-' then b'_' else c)

abbrev pub has_part : List Text → Text → Bool
has_part [] key = false
has_part (part ∷ parts) key = has_infix part key || has_part parts key

abbrev pub sensitive_parts : List Text
sensitive_parts =
    codes "secret"
    ∷ codes "token"
    ∷ codes "credential"
    ∷ codes "private_key"
    ∷ codes "authorization"
    ∷ []

unfoldable pub sensitive_log_key : Text → Bool
unfolding has_infix
sensitive_log_key key = has_part sensitive_parts (to_lower (underscored key))

-- The strings that the visits of `collectSensitiveStrings` append, in the order of the walk.
unfoldable mutual
  pub walk_sensitive_value : Value → Bool → List Text
  walk_sensitive_value (object fields) sensitive = walk_fields fields sensitive
  walk_sensitive_value (array items) sensitive = walk_items items sensitive
  walk_sensitive_value (string s) sensitive = if sensitive && is_nonempty s then s ∷ [] else []
  walk_sensitive_value null sensitive = []
  walk_sensitive_value (boolean b) sensitive = []
  walk_sensitive_value (number n) sensitive = []

  pub walk_items : Items → Bool → List Text
  walk_items nil sensitive = []
  walk_items (cons value items) sensitive =
      walk_sensitive_value value sensitive ++ walk_items items sensitive

  pub walk_fields : Fields → Bool → List Text
  walk_fields end sensitive = []
  walk_fields (field key value fields) sensitive =
      walk_sensitive_value value (sensitive || sensitive_log_key key)
      ++ walk_fields fields sensitive

-- `collectSensitiveStrings` of the bytes of a request, read by `unmarshal`.
abbrev pub collected : Option Value → List Text
collected none = []
collected (some value) = walk_sensitive_value value false

unfoldable pub collect_sensitive_strings : (Text → Option Value) → Text → List Text
collect_sensitive_strings unmarshal body = if is_empty body then [] else collected (unmarshal body)

-- A longer secret first.
abbrev pub negated_length : Text → ℤ
negated_length secret = sub_ℕ 0 (length secret)

unfoldable pub redact_secret : Text → Text → Text
unfolding replace_all query_escape
redact_secret secret value =
    replace_all (replace_all value secret redacted_log_value) (query_escape secret)
      redacted_log_value

unfoldable pub redact_each : List Text → Text → Text
unfolding redact_secret
redact_each [] value = value
redact_each (secret ∷ secrets) value =
    redact_each secrets (if is_empty secret then value else redact_secret secret value)

unfoldable pub redact_known_secrets : Text → List Text → Text
unfolding redact_each sort_by_score
redact_known_secrets value known_secrets =
    redact_each (sort_by_score negated_length known_secrets) value

unfoldable pub redact_api_error : Text → Text → Text
unfolding redact_secret
redact_api_error message token = if is_empty token then message else redact_secret token message

module _ (known_secrets : List Text) where
  unfoldable mutual
    unfolding redact_known_secrets sensitive_log_key

    pub redact_api_value : Value → Value
    redact_api_value (object fields) = object (redact_fields fields)
    redact_api_value (array items) = array (redact_items items)
    redact_api_value (string s) = string (redact_known_secrets s known_secrets)
    redact_api_value null = null
    redact_api_value (boolean b) = boolean b
    redact_api_value (number n) = number n

    pub redact_items : Items → Items
    redact_items nil = nil
    redact_items (cons value items) = cons (redact_api_value value) (redact_items items)

    pub redact_fields : Fields → Fields
    redact_fields end = end
    redact_fields (field key value fields) =
        let redacted = redact_api_value value in
        field key (if sensitive_log_key key then string redacted_log_value else redacted)
          (redact_fields fields)

abbrev pub field_value : Text → Fields → Option Value
field_value key end = none
field_value key (field k value fields) =
    let rest = field_value key fields in if text_eq k key then some value else rest

abbrev pub diagnostic_keys : List Text
diagnostic_keys =
    codes "code"
    ∷ codes "detail"
    ∷ codes "error"
    ∷ codes "message"
    ∷ codes "status"
    ∷ codes "status_code"
    ∷ codes "title"
    ∷ codes "type"
    ∷ []

abbrev pub with_field : Text → Option Value → Fields → Fields
with_field key none fields = fields
with_field key (some value) fields = field key value fields

abbrev pub redacted_field : List Text → Option Value → Option Value
redacted_field known_secrets none = none
redacted_field known_secrets (some value) = some (redact_api_value known_secrets value)

-- The conventional fields of a response, redacted.
unfoldable pub diagnostic_of : List Text → List Text → Fields → Fields
unfolding redact_api_value
diagnostic_of known_secrets [] response = end
diagnostic_of known_secrets (key ∷ keys) response =
    with_field key (redacted_field known_secrets (field_value key response))
      (diagnostic_of known_secrets keys response)

-- What is logged: the detail, or why there is none.
pub data DebugLine : Type 0 where
  not_an_object : ℕ → DebugLine
  no_diagnostic_fields : ℕ → DebugLine
  encoding_failed : ℕ → DebugLine
  detail : Text → DebugLine

abbrev pub max_debug_api_error_runes : ℕ
max_debug_api_error_runes = 4096

abbrev pub cut_detail : Text → Text
cut_detail runes =
    if leb (length runes) max_debug_api_error_runes
    then runes
    else take max_debug_api_error_runes runes ++ 8230 ∷ []

abbrev pub encoded_line : ℕ → Option Text → DebugLine
encoded_line n none = encoding_failed n
encoded_line n (some runes) = detail (cut_detail runes)

abbrev pub diagnostic_line : (Fields → Option Text) → ℕ → Fields → DebugLine
diagnostic_line marshal n end = no_diagnostic_fields n
diagnostic_line marshal n (field key value fields) =
    encoded_line n (marshal (field key value fields))

abbrev pub response_line : (Fields → Option Text) → List Text → ℕ → Option Fields → DebugLine
response_line marshal known_secrets n none = not_an_object n
response_line marshal known_secrets n (some response) =
    diagnostic_line marshal n (diagnostic_of known_secrets diagnostic_keys response)

unfoldable pub debug_api_error_response :
    (Text → Option Fields) → (Fields → Option Text) → Text → List Text → DebugLine
unfolding diagnostic_of
debug_api_error_response unmarshal marshal body known_secrets =
    response_line marshal known_secrets (length body) (unmarshal body)
