-- ===== src/Core/Phone/Laws.antt =====
-- What a normalised number looks like, and that normalising it again changes nothing.
use mathlib.Core.List.{reverse, reverse-cons, reverse-reverse}
use mathlib.Core.Path.{subst}
use textbee_gateway.Prelude.{
  ℕ, ◌≤◌, ◌≡◌, ◌≢◌, ◌⊎◌, refl, sym, arith, Bool, true, false, not, [], ◌∷◌, ◌++◌, ok, inl, inr,
  Bool-cases, length, ◌==◌, ◌&&◌, select, All, All-append,
}
use textbee_gateway.Core.Phone.{
  Text, is_space, is_digit, is_sip, trim, trim_start, starts_with, without_prefix, with_country,
  checked, subscriber, normalize_trimmed, normalize_phone_number,
}

abbrev pub IsDigit : ℕ → Type 0
IsDigit c = (b'0' ≤ c) × (c ≤ b'9')

abbrev pub NoLeadingZero : Text → Type 0
NoLeadingZero [] = Unit
NoLeadingZero (c ∷ s) = c ≢ b'0'

-- An E.164 number: a plus sign and 8 to 15 digits, of which the first is not zero.
abbrev pub IsE164 : Text → Type 0
IsE164 [] = ⊥
IsE164 (c ∷ digits) =
    (c ≡ b'+')
    × All IsDigit digits
    × (8 ≤ length digits)
    × (length digits ≤ 15)
    × NoLeadingZero digits

select-IsDigit : (s : Text) → All IsDigit (select is_digit s)
unfolding is_digit
select-IsDigit [] = tt
select-IsDigit (c ∷ s) = ground (arith, select-IsDigit s)

pub select_digits : (s : Text) → All IsDigit s → select is_digit s ≡ s
unfolding is_digit
select_digits [] h = refl
select_digits (c ∷ s) h = ground (arith, select_digits s h.1)

without_prefix-IsDigit : (s : Text) → All IsDigit s → All IsDigit (without_prefix s)
unfolding without_prefix
without_prefix-IsDigit [] h = tt
without_prefix-IsDigit (c ∷ []) h = h
without_prefix-IsDigit (c ∷ d ∷ s) h = ground arith

with_country-IsDigit :
    (plus : Bool) (country s : Text)
    → All IsDigit country
    → All IsDigit s
    → All IsDigit (with_country plus country s)
unfolding with_country
with_country-IsDigit plus country s h k = elim (Bool-cases (not plus && (length s == 10))) [
  | inl short ↦ rw short (All-append IsDigit country s h k)
  | inr long ↦ rw long k
]

subscriber-IsDigit : (country s : Text) → All IsDigit country → All IsDigit (subscriber country s)
unfolding subscriber
subscriber-IsDigit country s h =
    with_country-IsDigit (starts_with b'+' s) country _ h
      (without_prefix-IsDigit _ (select-IsDigit s))

checked_inv :
    (input digits r : Text)
    → checked input digits ≡ ok r
    → (r ≡ b'+' ∷ digits) × (8 ≤ length digits) × (length digits ≤ 15) × NoLeadingZero digits
unfolding checked
checked_inv input [] r e = ground arith
checked_inv input (d ∷ digits) r e = ground arith

checked_of :
    (input digits : Text)
    → 8 ≤ length digits
    → length digits ≤ 15
    → NoLeadingZero digits
    → checked input digits ≡ ok (b'+' ∷ digits)
unfolding checked
checked_of input [] low high h = absurd (omega arith)
checked_of input (d ∷ digits) low high h = ground arith

module _ (to_lower_case : Text → Text) (country : Text) where
  normalize_trimmed_inv :
      (input s r : Text)
      → normalize_trimmed to_lower_case country input s ≡ ok r
      → ((is_sip s ≡ true) × (r ≡ to_lower_case s))
        ⊎ ((is_sip s ≡ false) × (checked input (subscriber country s) ≡ ok r))
  unfolding normalize_trimmed
  normalize_trimmed_inv input [] r e = cc
  normalize_trimmed_inv input (c ∷ s) r e = elim (Bool-cases (is_sip (c ∷ s))) [
    | inl sip ↦ inl (sip, ground arith)
    | inr phone ↦ inr (phone, rw phone at e)
  ]

  -- What is returned is the lower-cased text of a SIP address, or an E.164 number whose digits are
  -- those of the input without the international prefix, and with the country code in front where
  -- the input is a ten-digit number without a plus sign.
  pub normalize_phone_number_shape :
      (input r : Text)
      → All IsDigit country
      → normalize_phone_number to_lower_case country input ≡ ok r
      → ((is_sip (trim input) ≡ true) × (r ≡ to_lower_case (trim input)))
        ⊎ (IsE164 r × (r ≡ b'+' ∷ subscriber country (trim input)))
  unfolding normalize_phone_number
  normalize_phone_number_shape input r digits e =
      elim (normalize_trimmed_inv input (trim input) r e) [
        | inl sip ↦ inl sip
        | inr (phone, e') ↦
            let (same, low, high, first) =
              checked_inv input (subscriber country (trim input)) r e' in
            inr (
              subst IsE164 (sym same)
                  (refl, subscriber-IsDigit country (trim input) digits, low, high, first),
              same,
            )
      ]

abbrev pub NoSpace : Text → Type 0
NoSpace = All (λ c. is_space c ≡ false)

trim_start_of_NoSpace : (s : Text) → NoSpace s → trim_start s ≡ s
unfolding trim_start
trim_start_of_NoSpace [] h = refl
trim_start_of_NoSpace (c ∷ s) h = rw (h.0)

NoSpace-snoc : (s : Text) (c : ℕ) → NoSpace s → is_space c ≡ false → NoSpace (s ++ c ∷ [])
NoSpace-snoc [] c h k = (k, tt)
NoSpace-snoc (d ∷ s) c h k = (h.0, NoSpace-snoc s c h.1 k)

NoSpace-reverse : (s : Text) → NoSpace s → NoSpace (reverse s)
NoSpace-reverse [] h = tt
NoSpace-reverse (c ∷ s) h = rw reverse-cons (NoSpace-snoc (reverse s) c (NoSpace-reverse s h.1) h.0)

pub trim_space : (s : Text) → trim (b' ' ∷ s) ≡ trim s
unfolding trim trim_start is_space
trim_space s = refl

pub trim_of_NoSpace : (s : Text) → NoSpace s → trim s ≡ s
unfolding trim
trim_of_NoSpace s h = rw (
  trim_start_of_NoSpace s h,
  trim_start_of_NoSpace (reverse s) (NoSpace-reverse s h),
  reverse-reverse,
)

IsDigit-NoSpace : (s : Text) → All IsDigit s → NoSpace s
unfolding is_space
IsDigit-NoSpace [] h = tt
IsDigit-NoSpace (c ∷ s) h = (ground arith, IsDigit-NoSpace s h.1)

plus-NoSpace : is_space b'+' ≡ false
unfolding is_space
plus-NoSpace = refl

plus_no_sip : (s : Text) → is_sip (b'+' ∷ s) ≡ false
unfolding is_sip
plus_no_sip [] = refl
plus_no_sip (a ∷ []) = refl
plus_no_sip (a ∷ b ∷ []) = refl
plus_no_sip (a ∷ b ∷ c ∷ s) = refl

without_prefix_none : (s : Text) → NoLeadingZero s → without_prefix s ≡ s
unfolding without_prefix
without_prefix_none [] h = refl
without_prefix_none (c ∷ []) h = refl
without_prefix_none (c ∷ d ∷ s) h = ground arith

subscriber_plus :
    (country digits : Text)
    → All IsDigit digits
    → NoLeadingZero digits
    → subscriber country (b'+' ∷ digits) ≡ digits
unfolding subscriber
subscriber_plus country digits h first =
    rw (select_digits digits h, without_prefix_none digits first)

plus_normalized :
    (to_lower_case : Text → Text) (country digits : Text)
    → All IsDigit digits
    → 8 ≤ length digits
    → length digits ≤ 15
    → NoLeadingZero digits
    → normalize_phone_number to_lower_case country (b'+' ∷ digits) ≡ ok (b'+' ∷ digits)
unfolding normalize_phone_number
plus_normalized to_lower_case country digits h low high first =
    rw
      (
        trim_of_NoSpace (b'+' ∷ digits) (plus-NoSpace, IsDigit-NoSpace digits h),
        plus_no_sip digits,
        subscriber_plus country digits h first,
      )
      (checked_of (b'+' ∷ digits) digits low high first)

-- An E.164 number is left as it is, whatever the default country code: normalising a second time
-- changes nothing.
pub normalize_phone_number_of_IsE164 :
    (to_lower_case : Text → Text) (country r : Text)
    → IsE164 r
    → normalize_phone_number to_lower_case country r ≡ ok r
normalize_phone_number_of_IsE164 to_lower_case country [] h = absurd h
normalize_phone_number_of_IsE164 to_lower_case country (c ∷ digits) (plus, h, low, high, first) =
    rw plus (plus_normalized to_lower_case country digits h low high first)
