-- ===== src/Http/Answers.antt =====
-- What src/http/server.ts reads of requests and makes of errors. A text is a list of UTF-16 code
-- units; `to_integer` reads a text with `Number`, as far as it is an integer from zero on.
use textbee_gateway.Prelude.{
  ℕ, ◌+◌, Bool, true, false, ◌&&◌, ◌||◌, Option, none, some, [], ◌∷◌, Result, ok, err, ltb, leb,
  ◌==◌, if◌then◌else◌,
}
use textbee_gateway.Core.Phone.{Text, trim}

pub data Code : Type 0 where
  validation_error unauthorized not_found conflict internal_error invalid_request : Code

-- What a handler throws: an `HttpError`, or any other error with its message.
pub data Thrown : Type 0 where
  http_error : ℕ → Code → Text → Thrown
  other_error : Text → Thrown

pub record Answer : Type 0 where
  pub status : ℕ
  pub code : Code
  pub message : Text

fold_case : ℕ → ℕ
fold_case c = if leb b'A' c && leb c b'Z' then c + 32 else c

begins : Text → Text → Bool
unfolding fold_case
begins [] s = true
begins (p ∷ ps) [] = false
begins (p ∷ ps) (c ∷ s) = (fold_case c == p) && begins ps s

-- A pattern of small letters under the flag `i`.
unfoldable pub mentions : Text → Text → Bool
unfolding begins
mentions pattern [] = begins pattern []
mentions pattern (c ∷ s) = begins pattern (c ∷ s) || mentions pattern s

abbrev unknown_call_text : Text
unknown_call_text =
    b'u' ∷ b'n' ∷ b'k' ∷ b'n' ∷ b'o' ∷ b'w' ∷ b'n' ∷ b' ' ∷ b'c' ∷ b'a' ∷ b'l' ∷ b'l' ∷ []

abbrev not_found_text : Text
not_found_text = b'n' ∷ b'o' ∷ b't' ∷ b' ' ∷ b'f' ∷ b'o' ∷ b'u' ∷ b'n' ∷ b'd' ∷ []

abbrev does_not_support_text : Text
does_not_support_text =
    b'd' ∷ b'o' ∷ b'e' ∷ b's' ∷ b' ' ∷ b'n' ∷ b'o' ∷ b't' ∷ b' ' ∷ b's' ∷ b'u' ∷ b'p' ∷ b'p' ∷ b'o'
    ∷ b'r' ∷ b't' ∷ []

abbrev already_active_text : Text
already_active_text =
    b'a' ∷ b'l' ∷ b'r' ∷ b'e' ∷ b'a' ∷ b'd' ∷ b'y' ∷ b' ' ∷ b'a' ∷ b'c' ∷ b't' ∷ b'i' ∷ b'v' ∷ b'e'
    ∷ []

abbrev internal_text : Text
internal_text =
    b'I' ∷ b'n' ∷ b't' ∷ b'e' ∷ b'r' ∷ b'n' ∷ b'a' ∷ b'l' ∷ b' ' ∷ b's' ∷ b'e' ∷ b'r' ∷ b'v' ∷ b'e'
    ∷ b'r' ∷ b' ' ∷ b'e' ∷ b'r' ∷ b'r' ∷ b'o' ∷ b'r' ∷ []

inferred_status : ℕ → Text → ℕ
unfolding mentions
inferred_status fallback message =
    if mentions unknown_call_text message || mentions not_found_text message
    then 404
    else if mentions does_not_support_text message || mentions already_active_text message
    then 409
    else fallback

code_of : ℕ → Code
code_of status =
    if status == 401
    then unauthorized
    else if status == 404
    then not_found
    else if status == 409
    then conflict
    else if leb 500 status
    then internal_error
    else invalid_request

answer_with : ℕ → Code → Text → Answer
answer_with status code message = record {
  status = status;
  code = code;
  message = if leb 500 status then internal_text else message;
}

-- `sendError`
unfoldable pub send_error : Thrown → ℕ → Answer
unfolding answer_with inferred_status code_of
send_error (http_error status code message) fallback = answer_with status code message
send_error (other_error message) fallback =
    let status = inferred_status fallback message in answer_with status (code_of status) message

-- A query parameter as it was given: absent, one text, or something else.
pub data Query : Type 0 where
  absent other_value : Query
  text : Text → Query

in_range : ℕ → Option ℕ → Result Code ℕ
in_range max none = err validation_error
in_range max (some n) = if ltb n 1 || ltb max n then err validation_error else ok n

module _ (to_integer : Query → Option ℕ) where
  -- `positiveInt`
  unfoldable pub positive_int : Query → ℕ → ℕ → Result Code ℕ
  unfolding in_range
  positive_int absent fallback max = ok fallback
  positive_int value fallback max = in_range max (to_integer value)

not_blank : Text → Result Code Text
not_blank [] = err validation_error
not_blank (c ∷ s) = ok (c ∷ s)

-- `requiredString` and `queryString`: a text that is not blank, trimmed.
unfoldable pub required_string : Query → Result Code Text
unfolding not_blank trim
required_string (text s) = not_blank (trim s)
required_string _ = err validation_error
