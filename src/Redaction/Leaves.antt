-- ===== src/Redaction/Leaves.antt =====
-- What is left of a JSON value: under a sensitive key only the placeholder, and no known secret elsewhere.
use teleport_client.Base.{
  ◌≡◌, refl, Option, none, some, Bool, true, false, not, ◌&&◌, ◌||◌, List, [], ◌∷◌, Text, codes,
  map, to_lower, ◌==◌, if◌then◌else◌, contains, has_infix, query_escape, text_eq, arith,
}
use teleport_client.Redaction.{
  Value, Items, Fields, null, boolean, number, string, array, object, nil, cons, end, field,
  redacted_log_value, sensitive_log_key, redact_known_secrets, redact_api_value, redact_items,
  redact_fields, diagnostic_of, diagnostic_keys, with_field, redacted_field, field_value,
}
use teleport_client.Redaction.Secrets.{
  is_redactable, has_infix-placeholder, has_infix-redact_known_secrets,
}

-- Whether a key names a secret, in any case and with `-` for `_`.
abbrev pub lowered : Text → Text
lowered key = to_lower (map (λ c. if c == b'-' then b'_' else c) key)

abbrev pub names_secret : Text → Bool
names_secret key =
    has_infix (codes "secret") (lowered key)
    || (has_infix (codes "token") (lowered key)
        || (has_infix (codes "credential") (lowered key)
            || (has_infix (codes "private_key") (lowered key)
                || has_infix (codes "authorization") (lowered key))))

sensitive_log_key-names_secret : (key : Text) → sensitive_log_key key ≡ names_secret key
unfolding sensitive_log_key
sensitive_log_key-names_secret key = ground arith

abbrev pub is_placeholder : Value → Bool
is_placeholder (string s) = text_eq s (codes "[REDACTED]")
is_placeholder _ = false

-- Every field whose key names a secret holds the placeholder and nothing else, at any depth.
unfoldable mutual
  pub is_covered : Value → Bool
  is_covered (object fields) = fields_covered fields
  is_covered (array items) = items_covered items
  is_covered (string s) = true
  is_covered null = true
  is_covered (boolean b) = true
  is_covered (number n) = true

  pub items_covered : Items → Bool
  items_covered nil = true
  items_covered (cons value items) = is_covered value && items_covered items

  pub fields_covered : Fields → Bool
  fields_covered end = true
  fields_covered (field key value fields) =
      (if names_secret key then is_placeholder value else is_covered value) && fields_covered fields

module _ (known_secrets : List Text) where
  covered_field :
      (sensitive names : Bool) (value : Value)
      → sensitive ≡ names
      → is_covered value ≡ true
      → (if names
          then is_placeholder (if sensitive then string redacted_log_value else value)
          else is_covered (if sensitive then string redacted_log_value else value))
        ≡ true
  unfolding is_covered text_eq
  covered_field true true value e h = refl
  covered_field false false value e h = h
  covered_field true false value e h = cc
  covered_field false true value e h = cc

  mutual
    unfolding redact_api_value is_covered

    covered-redact_api_value :
        (value : Value) → is_covered (redact_api_value known_secrets value) ≡ true
    covered-redact_api_value (object fields) = covered-redact_fields fields
    covered-redact_api_value (array items) = covered-redact_items items
    covered-redact_api_value (string s) = refl
    covered-redact_api_value null = refl
    covered-redact_api_value (boolean b) = refl
    covered-redact_api_value (number n) = refl

    covered-redact_items : (items : Items) → items_covered (redact_items known_secrets items) ≡ true
    covered-redact_items nil = refl
    covered-redact_items (cons value items) =
        ground (arith, covered-redact_api_value value, covered-redact_items items)

    covered-redact_fields :
        (fields : Fields) → fields_covered (redact_fields known_secrets fields) ≡ true
    covered-redact_fields end = refl
    covered-redact_fields (field key value fields) =
        rw
          (
            covered-redact_fields fields,
            covered_field (sensitive_log_key key) (names_secret key)
                (redact_api_value known_secrets value) (sensitive_log_key-names_secret key)
                (covered-redact_api_value value),
          )
          refl

-- In a redacted value each field whose key contains one of the words secret, token, credential,
-- private_key and authorization, in any case and with `-` for `_`, holds the placeholder and nothing
-- else, whatever it held before and however deep it is.
pub is_covered-redact_api_value :
    (known_secrets : List Text) (value : Value)
    → is_covered (redact_api_value known_secrets value) ≡ true
is_covered-redact_api_value known_secrets value = covered-redact_api_value known_secrets value

-- The text occurs in no string of the value.
unfoldable mutual
  pub leaves_lack : Text → Value → Bool
  leaves_lack p (object fields) = fields_lack p fields
  leaves_lack p (array items) = items_lack p items
  leaves_lack p (string s) = not (has_infix p s)
  leaves_lack p null = true
  leaves_lack p (boolean b) = true
  leaves_lack p (number n) = true

  pub items_lack : Text → Items → Bool
  items_lack p nil = true
  items_lack p (cons value items) = leaves_lack p value && items_lack p items

  pub fields_lack : Text → Fields → Bool
  fields_lack p end = true
  fields_lack p (field key value fields) = leaves_lack p value && fields_lack p fields

module _ (known_secrets : List Text) (p : Text)
    (absent : (s : Text) → has_infix p (redact_known_secrets s known_secrets) ≡ false)
    (foreign : has_infix p redacted_log_value ≡ false) where
  lacking_field :
      (sensitive : Bool) (value : Value)
      → leaves_lack p value ≡ true
      → leaves_lack p (if sensitive then string redacted_log_value else value) ≡ true
  unfolding leaves_lack
  lacking_field true value h = rw foreign refl
  lacking_field false value h = h

  mutual
    unfolding redact_api_value leaves_lack

    leaves_lack-redacted :
        (value : Value) → leaves_lack p (redact_api_value known_secrets value) ≡ true
    leaves_lack-redacted (object fields) = fields_lack-redacted fields
    leaves_lack-redacted (array items) = items_lack-redacted items
    leaves_lack-redacted (string s) = rw (absent s) refl
    leaves_lack-redacted null = refl
    leaves_lack-redacted (boolean b) = refl
    leaves_lack-redacted (number n) = refl

    items_lack-redacted : (items : Items) → items_lack p (redact_items known_secrets items) ≡ true
    items_lack-redacted nil = refl
    items_lack-redacted (cons value items) =
        ground (arith, leaves_lack-redacted value, items_lack-redacted items)

    fields_lack-redacted :
        (fields : Fields) → fields_lack p (redact_fields known_secrets fields) ≡ true
    fields_lack-redacted end = refl
    fields_lack-redacted (field key value fields) = rw (fields_lack-redacted fields) (
        ground (
          arith,
          lacking_field (sensitive_log_key key) (redact_api_value known_secrets value)
              (leaves_lack-redacted value),
        ))

  fields_lack-diagnostic_of :
      (keys : List Text) (response : Fields)
      → fields_lack p (diagnostic_of known_secrets keys response) ≡ true
  unfolding diagnostic_of leaves_lack
  fields_lack-diagnostic_of [] response = refl
  fields_lack-diagnostic_of (key ∷ keys) response =
      lacking (field_value key response) (fields_lack-diagnostic_of keys response)
    where
      lacking :
          (o : Option Value)
          → fields_lack p (diagnostic_of known_secrets keys response) ≡ true
          → fields_lack p (
              with_field key
                (redacted_field known_secrets o)
                (diagnostic_of known_secrets keys response))
            ≡ true
      lacking none h = h
      lacking (some value) h = ground (arith, h, leaves_lack-redacted value)

-- A known secret, as it is and escaped for a URL, occurs in no string of a redacted value, nor in one of
-- the diagnostic that is logged, where these spellings have no square bracket and are no part of the
-- word REDACTED.
pub leaves_lack-redact_api_value :
    (known_secrets : List Text) (secret : Text) (value : Value) (response : Fields)
    → contains known_secrets secret ≡ true
    → is_redactable secret ≡ true
    → is_redactable (query_escape secret) ≡ true
    → (leaves_lack secret (redact_api_value known_secrets value) ≡ true)
      × (leaves_lack (query_escape secret) (redact_api_value known_secrets value) ≡ true)
      × (fields_lack secret (diagnostic_of known_secrets diagnostic_keys response) ≡ true)
      × (fields_lack (query_escape secret) (diagnostic_of known_secrets diagnostic_keys response)
          ≡ true)
leaves_lack-redact_api_value known_secrets secret value response known plain escaped =
    let absent : (s : Text) → has_infix secret (redact_known_secrets s known_secrets) ≡ false =
      λ s. (has_infix-redact_known_secrets s known_secrets secret known plain escaped).0 in
    let absent_escaped : (s : Text)
        → has_infix (query_escape secret) (redact_known_secrets s known_secrets) ≡ false =
      λ s. (has_infix-redact_known_secrets s known_secrets secret known plain escaped).1 in
    let foreign = has_infix-placeholder secret plain in
    let foreign_escaped = has_infix-placeholder (query_escape secret) escaped in
    (
      leaves_lack-redacted known_secrets secret absent foreign value,
      leaves_lack-redacted known_secrets (query_escape secret) absent_escaped foreign_escaped value,
      fields_lack-diagnostic_of known_secrets secret absent foreign diagnostic_keys response,
      fields_lack-diagnostic_of known_secrets (query_escape secret) absent_escaped foreign_escaped
          diagnostic_keys response,
    )
