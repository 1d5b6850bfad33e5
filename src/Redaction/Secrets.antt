-- ===== src/Redaction/Secrets.antt =====
-- No secret that is known is left in a redacted text.
use teleport_client.Base.{
  ◌≡◌, refl, Bool, true, false, ◌||◌, List, [], ◌∷◌, Text, codes, if◌then◌else◌, is_empty, contains,
  has_infix, replace_all, query_escape, insert_by_score, sort_by_score, text_eq, text_eq→eq, arith,
  Bool-cases, inl, inr,
}
use teleport_client.Redaction.{
  negated_length, redacted_log_value, redact_secret, redact_each, redact_known_secrets,
}
use teleport_client.Redaction.Replacing.{
  is_foreign, has_infix-marker, has_infix-foreign_empty, has_infix-replace_from,
  has_infix-replace_from_itself,
}

-- A text that is not empty, has no square bracket and is no part of the word REDACTED.
unfoldable pub is_redactable : Text → Bool
unfolding is_foreign
is_redactable secret = is_foreign (codes "REDACTED") secret

is_redactable-is_empty : (p : Text) → is_redactable p ≡ true → is_empty p ≡ false
unfolding is_redactable is_foreign is_empty
is_redactable-is_empty [] h = cc
is_redactable-is_empty (d ∷ p) h = refl

contains-insert :
    (x : Text) (xs : List Text) (a : Text)
    → contains (insert_by_score negated_length x xs) a ≡ (text_eq x a || contains xs a)
unfolding insert_by_score contains
contains-insert x [] a = refl
contains-insert x (y ∷ ys) a = ground (arith, contains-insert x ys a)

contains-sort :
    (xs : List Text) (a : Text) → contains (sort_by_score negated_length xs) a ≡ contains xs a
unfolding sort_by_score contains
contains-sort [] a = refl
contains-sort (x ∷ xs) a =
    ground (arith, contains-insert x (sort_by_score negated_length xs) a, contains-sort xs a)

has_infix-redact_secret :
    (p secret value : Text)
    → is_redactable p ≡ true
    → has_infix p value ≡ false
    → has_infix p (redact_secret secret value) ≡ false
unfolding redact_secret replace_all is_redactable
has_infix-redact_secret p secret value h e =
    has_infix-replace_from (codes "REDACTED") p (query_escape secret) 0
      (replace_all value secret redacted_log_value) h
      (has_infix-replace_from (codes "REDACTED") p secret 0 value h e)

has_infix-redact_secret_itself :
    (secret value : Text)
    → is_redactable secret ≡ true
    → has_infix secret (redact_secret secret value) ≡ false
unfolding redact_secret replace_all is_redactable
has_infix-redact_secret_itself secret value h =
    has_infix-replace_from (codes "REDACTED") secret (query_escape secret) 0
      (replace_all value secret redacted_log_value) h
      (has_infix-replace_from_itself (codes "REDACTED") secret 0 value h)

has_infix-redact_secret_escaped :
    (secret value : Text)
    → is_redactable (query_escape secret) ≡ true
    → has_infix (query_escape secret) (redact_secret secret value) ≡ false
unfolding redact_secret replace_all is_redactable
has_infix-redact_secret_escaped secret value h =
    has_infix-replace_from_itself (codes "REDACTED") (query_escape secret) 0
      (replace_all value secret redacted_log_value) h

has_infix-redact_each :
    (p : Text) (secrets : List Text) (value : Text)
    → is_redactable p ≡ true
    → has_infix p value ≡ false
    → has_infix p (redact_each secrets value) ≡ false
unfolding redact_each
has_infix-redact_each p [] value h e = e
has_infix-redact_each p (secret ∷ secrets) value h e =
    has_infix-redact_each p secrets (if is_empty secret then value else redact_secret secret value)
      h (next (is_empty secret))
  where
    next : (b : Bool) → has_infix p (if b then value else redact_secret secret value) ≡ false
    next true = e
    next false = has_infix-redact_secret p secret value h e

pub has_infix-placeholder :
    (p : Text) → is_redactable p ≡ true → has_infix p redacted_log_value ≡ false
unfolding is_redactable
has_infix-placeholder p h =
    rw (has_infix-marker (codes "REDACTED") p [] h) (has_infix-foreign_empty (codes "REDACTED") p h)

-- The spellings of a secret that are replaced: as it is, or escaped.
abbrev spelling : Bool → Text → Text
spelling escaped secret = if escaped then query_escape secret else secret

has_infix-redact_secret-spelling :
    (escaped : Bool) (secret value : Text)
    → is_redactable (spelling escaped secret) ≡ true
    → has_infix (spelling escaped secret) (redact_secret secret value) ≡ false
has_infix-redact_secret-spelling true secret value h =
    has_infix-redact_secret_escaped secret value h
has_infix-redact_secret-spelling false secret value h =
    has_infix-redact_secret_itself secret value h

is_empty-spelling :
    (escaped : Bool) (secret : Text)
    → is_redactable (spelling escaped secret) ≡ true
    → is_empty secret ≡ false
unfolding query_escape
is_empty-spelling true [] h = unfold is_redactable is_foreign in cc
is_empty-spelling false [] h = unfold is_redactable is_foreign in cc
is_empty-spelling escaped (c ∷ secret) h = unfold is_empty in refl

has_infix-redact_each_member :
    (escaped : Bool) (secret : Text) (secrets : List Text) (value : Text)
    → is_redactable (spelling escaped secret) ≡ true
    → contains secrets secret ≡ true
    → has_infix (spelling escaped secret) (redact_each secrets value) ≡ false
unfolding redact_each contains
has_infix-redact_each_member escaped secret [] value h e = cc
has_infix-redact_each_member escaped secret (s ∷ secrets) value h e =
    elim (Bool-cases (text_eq s secret)) [
      | inl same ↦ found (text_eq→eq s secret same)
      | inr other ↦
          has_infix-redact_each_member escaped secret secrets
            (if is_empty s then value else redact_secret s value) h (ground (arith, e, other))
    ]
  where
    found :
        s ≡ secret
        → has_infix
            (spelling escaped secret)
            (redact_each secrets (if is_empty s then value else redact_secret s value))
          ≡ false
    found same =
        rw (same, is_empty-spelling escaped secret h)
          (has_infix-redact_each (spelling escaped secret) secrets (redact_secret secret value) h
            (has_infix-redact_secret-spelling escaped secret value h))

-- A known secret that has no square bracket and is no part of the word REDACTED occurs nowhere in the
-- redacted text, and neither does its form escaped for a URL, where the same holds of it.
pub has_infix-redact_known_secrets :
    (value : Text) (known_secrets : List Text) (secret : Text)
    → contains known_secrets secret ≡ true
    → is_redactable secret ≡ true
    → is_redactable (query_escape secret) ≡ true
    → (has_infix secret (redact_known_secrets value known_secrets) ≡ false)
      × (has_infix (query_escape secret) (redact_known_secrets value known_secrets) ≡ false)
unfolding redact_known_secrets
has_infix-redact_known_secrets value known_secrets secret known plain escaped = (
  has_infix-redact_each_member false secret (sort_by_score negated_length known_secrets) value plain
      (rw (contains-sort known_secrets secret) known),
  has_infix-redact_each_member true secret (sort_by_score negated_length known_secrets) value
      escaped (rw (contains-sort known_secrets secret) known),
)
