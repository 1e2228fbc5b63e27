-- ===== src/Http/Sessions.antt =====
-- The authentication of src/http/server.ts. A text is a list of UTF-16 code units. `utf8` is what
-- `Buffer.from` makes of a text, `show` the digits of a number, `to_number` reads a text with
-- `Number`, as far as it is a safe integer from zero on, and `hmac key data` is the digest of a
-- keyed hash in base64url. A request is what `req.header` gives of it, an absent header empty.
pub mod Headers
pub mod Cookies
use textbee_gateway.Prelude.{
  ℕ, ◌-◌, ◌/◌, Bool, true, false, ◌&&◌, ◌||◌, Option, none, some, List, [], ◌∷◌, ◌++◌, map, ltb,
  ◌==◌, if◌then◌else◌,
}
use textbee_gateway.Core.Phone.{Text, trim}
use textbee_gateway.Core.Session.Routing.{or_else}

-- DASHBOARD_SESSION_COOKIE
abbrev pub dashboard_session_cookie : Text
dashboard_session_cookie =
    b'g' ∷ b'a' ∷ b't' ∷ b'e' ∷ b'w' ∷ b'a' ∷ b'y' ∷ b'_' ∷ b's' ∷ b'e' ∷ b's' ∷ b's' ∷ b'i' ∷ b'o'
    ∷ b'n' ∷ []

pub same_text : Text → Text → Bool
same_text [] [] = true
same_text (c ∷ s) (d ∷ t) = (c == d) && same_text s t
same_text s t = false

put_front : ℕ → Option (Text × Text) → Option (Text × Text)
put_front d none = none
put_front d (some (s, t)) = some (d ∷ s, t)

-- What comes in front of the first such code unit, and behind it.
unfoldable pub cut_at : ℕ → Text → Option (Text × Text)
unfolding put_front
cut_at c [] = none
cut_at c (d ∷ s) = let rest = cut_at c s in if d == c then some ([], s) else put_front d rest

onto_first : ℕ → List Text → List Text
onto_first c [] = (c ∷ []) ∷ []
onto_first c (s ∷ ss) = (c ∷ s) ∷ ss

-- `split`
unfoldable pub split : ℕ → Text → List Text
unfolding onto_first
split c [] = [] ∷ []
split c (d ∷ s) = let rest = split c s in if d == c then [] ∷ rest else onto_first d rest

non_empty : List Text → List Text
non_empty [] = []
non_empty ([] ∷ ss) = non_empty ss
non_empty ((c ∷ s) ∷ ss) = (c ∷ s) ∷ non_empty ss

name_value : Option (Text × Text) → Text → Text × Text
name_value none part = (part, [])
name_value (some p) part = p

-- `parseCookies`, with the pairs in the order of the header.
unfoldable pub parse_cookies : Text → List (Text × Text)
unfolding non_empty name_value cut_at split trim
parse_cookies header =
    map (λ part. name_value (cut_at b'=' part) part) (non_empty (map trim (split b';' header)))

-- A field of `Object.fromEntries`: the last pair of a name counts.
unfoldable pub cookie : Text → List (Text × Text) → Option Text
unfolding same_text
cookie name [] = none
cookie name ((k, v) ∷ rest) = or_else (cookie name rest) (if same_text k name then some v else none)

-- `authorization.startsWith("Bearer ")`, and what is behind it.
unfoldable pub bearer_token : Text → Option Text
bearer_token (b ∷ e ∷ a ∷ r ∷ e' ∷ r' ∷ s ∷ token) =
    if (b == b'B')
      && ((e == b'e')
          && ((a == b'a') && ((r == b'r') && ((e' == b'e') && ((r' == b'r') && (s == b' '))))))
    then some token
    else none
bearer_token _ = none

-- `parts.join("; ")`
join_parts : List Text → Text
join_parts [] = []
join_parts (s ∷ []) = s
join_parts (s ∷ t ∷ ss) = s ++ b';' ∷ b' ' ∷ join_parts (t ∷ ss)

abbrev path_part : Text
path_part = b'P' ∷ b'a' ∷ b't' ∷ b'h' ∷ b'=' ∷ b'/' ∷ []

abbrev http_only_part : Text
http_only_part = b'H' ∷ b't' ∷ b't' ∷ b'p' ∷ b'O' ∷ b'n' ∷ b'l' ∷ b'y' ∷ []

abbrev same_site_part : Text
same_site_part =
    b'S' ∷ b'a' ∷ b'm' ∷ b'e' ∷ b'S' ∷ b'i' ∷ b't' ∷ b'e' ∷ b'=' ∷ b'S' ∷ b't' ∷ b'r' ∷ b'i' ∷ b'c'
    ∷ b't' ∷ []

abbrev max_age_prefix : Text
max_age_prefix = b'M' ∷ b'a' ∷ b'x' ∷ b'-' ∷ b'A' ∷ b'g' ∷ b'e' ∷ b'=' ∷ []

abbrev secure_part : Text
secure_part = b'S' ∷ b'e' ∷ b'c' ∷ b'u' ∷ b'r' ∷ b'e' ∷ []

abbrev session_prefix : Text
session_prefix =
    b'd' ∷ b'a' ∷ b's' ∷ b'h' ∷ b'b' ∷ b'o' ∷ b'a' ∷ b'r' ∷ b'd' ∷ b'-' ∷ b's' ∷ b'e' ∷ b's' ∷ b's'
    ∷ b'i' ∷ b'o' ∷ b'n' ∷ b':' ∷ []

module _ (utf8 : Text → List ℕ) (show : ℕ → Text) (to_number : Text → Option ℕ)
    (hmac : Text → Text → Text) where
  -- `safeEqual`
  unfoldable pub safe_equal : Text → Text → Bool
  unfolding same_text
  safe_equal left right = same_text (utf8 left) (utf8 right)

  unfoldable pub sign_dashboard_session : ℕ → Text → Text
  sign_dashboard_session expires_at secret = hmac secret (session_prefix ++ show expires_at)

  unfoldable pub create_dashboard_session : ℕ → Text → Text
  unfolding sign_dashboard_session
  create_dashboard_session expires_at secret =
      show expires_at ++ b'.' ∷ sign_dashboard_session expires_at secret

  -- An end of zero deletes the cookie.
  unfoldable pub serialize_session_cookie : ℕ → Text → ℕ → Bool → Text
  unfolding join_parts
  serialize_session_cookie now value expires_at secure = join_parts (
      (dashboard_session_cookie ++ b'=' ∷ value)
      ∷ path_part
      ∷ http_only_part
      ∷ same_site_part
      ∷ (max_age_prefix ++ show (if ltb 0 expires_at then (expires_at - now) / 1000 else 0))
      ∷ (if secure then secure_part ∷ [] else []))

  signed_until : ℕ → Text → Text → Option ℕ → Bool
  unfolding safe_equal sign_dashboard_session
  signed_until now expected signature none = false
  signed_until now expected signature (some expires_at) =
      ltb now expires_at && safe_equal signature (sign_dashboard_session expires_at expected)

  valid_parts : ℕ → Text → Option (Text × Text) → Bool
  unfolding signed_until
  valid_parts now expected none = false
  valid_parts now expected (some ([], signature)) = false
  valid_parts now expected (some (c ∷ s, signature)) =
      signed_until now expected signature (to_number (c ∷ s))

  -- A session that is absent or empty has no separator.
  unfoldable pub valid_session : ℕ → Text → Option Text → Bool
  unfolding valid_parts cut_at
  valid_session now expected none = false
  valid_session now expected (some session) = valid_parts now expected (cut_at b'.' session)

  bearer_matches : Text → Option Text → Bool
  unfolding safe_equal
  bearer_matches expected none = false
  bearer_matches expected (some token) = safe_equal token expected

  -- `isAuthenticated`, of a request with these two headers.
  unfoldable pub is_authenticated : ℕ → Text → Text → Text → Bool
  unfolding bearer_matches bearer_token valid_session cookie parse_cookies
  is_authenticated now [] authorization cookies = false
  is_authenticated now (k ∷ key) authorization cookies =
      bearer_matches (k ∷ key) (bearer_token authorization)
      || valid_session now (k ∷ key) (cookie dashboard_session_cookie (parse_cookies cookies))
