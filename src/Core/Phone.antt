-- ===== src/Core/Phone.antt =====
-- src/core/phone-normalization.ts. A text is the list of its UTF-16 code units. `to_lower_case` is
-- the language's own, of which the code asks nothing here.
pub mod Laws
use textbee_gateway.Prelude.{
  ℕ, ◌+◌, ◌-◌, Bool, true, false, not, ◌&&◌, ◌||◌, Option, none, some, List, [], ◌∷◌, ◌++◌, Result,
  ok, err, length, drop, ltb, leb, ◌==◌, if◌then◌else◌, select,
}
use mathlib.Core.List.{reverse}

abbrev pub Text : Type 0
Text = List ℕ

-- White space and line ends, as `trim` takes them off.
unfoldable pub is_space : ℕ → Bool
is_space c =
    (leb 9 c && leb c 13)
    || (c == 32)
    || (c == 0xa0)
    || (c == 0x1680)
    || (leb 0x2000 c && leb c 0x200a)
    || (c == 0x2028)
    || (c == 0x2029)
    || (c == 0x202f)
    || (c == 0x205f)
    || (c == 0x3000)
    || (c == 0xfeff)

trim_start : Text → Text
trim_start [] = []
trim_start (c ∷ s) = let rest = trim_start s in if is_space c then rest else c ∷ s

unfoldable pub trim : Text → Text
unfolding trim_start
trim s = reverse (trim_start (reverse (trim_start s)))

unfoldable pub is_digit : ℕ → Bool
is_digit c = leb b'0' c && leb c b'9'

-- A code unit matches a lower-case letter of the pattern under the flag `i`.
either_case : ℕ → ℕ → Bool
either_case letter c = (c == letter) || (c + 32 == letter)

starts_with : ℕ → Text → Bool
starts_with c [] = false
starts_with c (d ∷ s) = d == c

-- `/^(sip|sips):/i`
unfoldable pub is_sip : Text → Bool
unfolding either_case starts_with
is_sip (s ∷ i ∷ p ∷ c ∷ rest) =
    either_case b's' s
    && either_case b'i' i
    && either_case b'p' p
    && ((c == b':') || (either_case b's' c && starts_with b':' rest))
is_sip _ = false

pub data PhoneError : Type 0 where
  required : PhoneError
  invalid : Text → PhoneError

-- `if (digits.startsWith("00")) digits = digits.slice(2)`
without_prefix : Text → Text
without_prefix (c ∷ d ∷ s) = if (c == b'0') && (d == b'0') then s else c ∷ d ∷ s
without_prefix s = s

with_country : Bool → Text → Text → Text
with_country has_plus default_country_code digits =
    if not has_plus && (length digits == 10) then default_country_code ++ digits else digits

checked : Text → Text → Result PhoneError Text
unfolding starts_with
checked input digits =
    if ltb (length digits) 8 || ltb 15 (length digits) || starts_with b'0' digits
    then err (invalid input)
    else ok (b'+' ∷ digits)

-- The number that is checked in the end.
pub subscriber : Text → Text → Text
unfolding without_prefix with_country is_digit starts_with
subscriber default_country_code trimmed =
    with_country (starts_with b'+' trimmed) default_country_code
      (without_prefix (select is_digit trimmed))

normalize_trimmed : (Text → Text) → Text → Text → Text → Result PhoneError Text
unfolding is_sip checked subscriber
normalize_trimmed to_lower_case default_country_code input [] = err required
normalize_trimmed to_lower_case default_country_code input (c ∷ s) =
    if is_sip (c ∷ s)
    then ok (to_lower_case (c ∷ s))
    else checked input (subscriber default_country_code (c ∷ s))

unfoldable pub normalize_phone_number : (Text → Text) → Text → Text → Result PhoneError Text
unfolding normalize_trimmed trim
normalize_phone_number to_lower_case default_country_code input =
    normalize_trimmed to_lower_case default_country_code input (trim input)
