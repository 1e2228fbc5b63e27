-- ===== src/Tests/Phone.antt =====
-- Tests of src/core/phone-normalization.ts.
use textbee_gateway.Prelude.{◌≡◌, ◌⊎◌, refl, arith, true, [], ◌∷◌, ok, err}
use textbee_gateway.Core.Phone.{
  Text, required, invalid, is_sip, is_space, is_digit, trim, subscriber, normalize_phone_number,
}
use textbee_gateway.Core.Phone.Laws.{IsE164, normalize_phone_number_shape}

abbrev same_text : Text → Text
same_text s = s

abbrev country : Text
country = b'1' ∷ []

-- " (415) 555-0100"
abbrev typed : Text
typed =
    b' ' ∷ b'(' ∷ b'4' ∷ b'1' ∷ b'5' ∷ b')' ∷ b' ' ∷ b'5' ∷ b'5' ∷ b'5' ∷ b'-' ∷ b'0' ∷ b'1' ∷ b'0'
    ∷ b'0' ∷ []

abbrev number : Text
number = b'+' ∷ b'1' ∷ b'4' ∷ b'1' ∷ b'5' ∷ b'5' ∷ b'5' ∷ b'5' ∷ b'0' ∷ b'1' ∷ b'0' ∷ b'0' ∷ []

typed_normalized : normalize_phone_number same_text country typed ≡ ok number
unfolding normalize_phone_number is_space is_digit is_sip
typed_normalized = refl

blank_refused : normalize_phone_number same_text country (b' ' ∷ 9 ∷ []) ≡ err required
unfolding normalize_phone_number is_space is_digit is_sip
blank_refused = refl

short_refused :
    normalize_phone_number same_text country (b'9' ∷ b'1' ∷ b'1' ∷ [])
    ≡ err (invalid (b'9' ∷ b'1' ∷ b'1' ∷ []))
unfolding normalize_phone_number is_space is_digit is_sip
short_refused = refl

normalize_phone_number_shape_example :
    ((is_sip (trim typed) ≡ true) × (number ≡ trim typed))
    ⊎ (IsE164 number × (number ≡ b'+' ∷ subscriber country (trim typed)))
normalize_phone_number_shape_example =
    normalize_phone_number_shape same_text country typed number ((omega arith, omega arith), tt)
      typed_normalized
