-- ===== src/Tests/Http.antt =====
-- Tests of src/http/server.ts.
use textbee_gateway.Prelude.{
  ℕ, ◌≡◌, ◌≢◌, ◌⊎◌, refl, arith, true, Option, none, some, List, [], ◌∷◌, ltb, err,
}
use textbee_gateway.Core.Phone.{Text, is_space}
use textbee_gateway.Http.Sessions.{
  bearer_token, create_dashboard_session, serialize_session_cookie, is_authenticated,
}
use textbee_gateway.Http.Sessions.Headers.{browser_header}
use textbee_gateway.Http.Sessions.Cookies.{
  kept_pair, session_until, SignedSession, is_authenticated_inv,
}
use textbee_gateway.Http.Answers.{
  send_error, other_error, internal_error, validation_error, positive_int, text,
}

-- Every time is shown as "7", which is read back as 7, and every digest is "ab".
abbrev show : ℕ → Text
show n = b'7' ∷ []

abbrev to_number : Text → Option ℕ
to_number s = some 7

abbrev hmac : Text → Text → Text
hmac key data' = b'a' ∷ b'b' ∷ []

abbrev utf8 : Text → List ℕ
utf8 s = s

abbrev key : Text
key = b'k' ∷ []

abbrev value : Text
value = create_dashboard_session utf8 show to_number hmac 7 key

abbrev set_cookie : Text
set_cookie = serialize_session_cookie utf8 show to_number hmac 3 value 7 true

abbrev other_cookie : Text
other_cookie = b'x' ∷ b'=' ∷ b'1' ∷ []

session_until_example :
    is_authenticated utf8 show to_number hmac 5 key []
      (browser_header (some other_cookie) (kept_pair set_cookie))
    ≡ ltb 5 7
unfolding bearer_token create_dashboard_session is_space
session_until_example =
    session_until utf8 show to_number hmac 3 5 7 b'k' [] [] true (some other_cookie) refl refl
      (λ e. cc) ((λ e. omega (arith, e)), tt) (ground arith)

admitted :
    is_authenticated utf8 show to_number hmac 5 key [] (browser_header none (kept_pair set_cookie))
    ≡ true
unfolding is_authenticated bearer_token create_dashboard_session serialize_session_cookie is_space
admitted = refl

is_authenticated_inv_example :
    (key ≢ [])
    × (((token : Text) × (bearer_token [] ≡ some token) × (utf8 token ≡ utf8 key))
        ⊎ SignedSession utf8 show to_number hmac 5 key (browser_header none (kept_pair set_cookie)))
is_authenticated_inv_example =
    is_authenticated_inv utf8 show to_number hmac 5 key []
      (browser_header none (kept_pair set_cookie)) admitted

-- An error that the routes do not know of is hidden behind a general text.
hidden : (send_error (other_error key) 500).code ≡ internal_error
unfolding send_error
hidden = refl

too_many : positive_int (λ q. some 501) (text key) 100 500 ≡ err validation_error
unfolding positive_int
too_many = refl
