-- ===== src/Device/Keys.antt =====
-- The hexadecimal form of a key reads back as the key, and no digit ends a line.
use teleport_client.Base.{
  ℕ, zero, suc, ◌+◌, ◌-◌, ◌*◌, ◌/◌, ◌%◌, ◌≤◌, ◌<◌, ◌≡◌, refl, sym, ap, subst, ◌∙◌, Bool, true,
  false, not, ◌&&◌, Option, none, some, [], ◌∷◌, Text, leb, ltb, ◌==◌, if◌then◌else◌, length,
  has_byte, hex_digit, itoa_from, arith,
}
use teleport_client.Device.{hex_encode, checked_key, b64_key_to_hex}

abbrev pub hex_value : ℕ → ℕ
hex_value c = if leb c 57 then c - 48 else c - 87

-- `hex.DecodeString` of digits.
unfoldable pub unhex : Text → Text
unhex [] = []
unhex (c ∷ []) = []
unhex (c ∷ d ∷ s) = (hex_value c * 16 + hex_value d) ∷ unhex s

unfoldable pub all_bytes : Text → Bool
all_bytes [] = true
all_bytes (c ∷ s) = ltb c 256 && all_bytes s

hex_value-hex_digit : (d : ℕ) → d < 16 → hex_value (hex_digit d) ≡ d
hex_value-hex_digit d h = ground (arith, h)

hex_digit_low : (d : ℕ) → 48 ≤ hex_digit d
hex_digit_low d = ground arith

unhex-hex_encode : (s : Text) → all_bytes s ≡ true → unhex (hex_encode s) ≡ s
unfolding unhex hex_encode all_bytes
unhex-hex_encode [] h = refl
unhex-hex_encode (c ∷ s) h =
    rw
      (
        hex_value-hex_digit (c / 16) (ground (arith, h)),
        hex_value-hex_digit (c % 16) (ground arith),
      )
      (ground (arith, unhex-hex_encode s (ground (arith, h))))

length-hex_encode : (s : Text) → length (hex_encode s) ≡ length s + length s
unfolding hex_encode
length-hex_encode [] = refl
length-hex_encode (c ∷ s) = omega (arith, length-hex_encode s)

pub has_byte-hex_encode : (s : Text) → has_byte 10 (hex_encode s) ≡ false
unfolding hex_encode has_byte
has_byte-hex_encode [] = refl
has_byte-hex_encode (c ∷ s) =
    ground (arith, has_byte-hex_encode s, hex_digit_low (c / 16), hex_digit_low (c % 16))

pub has_byte-itoa_from :
    (fuel n : ℕ) (acc : Text) → has_byte 10 acc ≡ false → has_byte 10 (itoa_from fuel n acc) ≡ false
unfolding itoa_from has_byte
has_byte-itoa_from zero n acc h = h
has_byte-itoa_from (suc fuel) n acc h =
    ground (arith, h, has_byte-itoa_from fuel (n / 10) ((48 + n % 10) ∷ acc) (ground (arith, h)))

-- A key that is accepted has 64 digits, which read back as its 32 bytes.
pub b64_key_to_hex_lem :
    (decode : Text → Option Text) (key decoded digits : Text)
    → decode key ≡ some decoded
    → all_bytes decoded ≡ true
    → b64_key_to_hex decode key ≡ some digits
    → (unhex digits ≡ decoded) × (length digits ≡ 64) × (has_byte 10 digits ≡ false)
unfolding b64_key_to_hex
b64_key_to_hex_lem decode key decoded digits found bytes e =
    by_length (length decoded == 32) refl (sym (ap checked_key found) ∙ e)
  where
    by_length :
        (fits : Bool)
        → (length decoded == 32) ≡ fits
        → (if not fits then none else some (hex_encode decoded)) ≡ some digits
        → (unhex digits ≡ decoded) × (length digits ≡ 64) × (has_byte 10 digits ≡ false)
    by_length false f e = (cc, cc, cc)
    by_length true f e =
        let same : hex_encode decoded ≡ digits = cc in
        let size : length decoded ≡ 32 = ground (arith, f) in
        (
          subst (λ d. unhex d ≡ decoded) same (unhex-hex_encode decoded bytes),
          subst (λ d. length d ≡ 64) same (omega (arith, length-hex_encode decoded, size)),
          subst (λ d. has_byte 10 d ≡ false) same (has_byte-hex_encode decoded),
        )
