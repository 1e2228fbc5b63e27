-- ===== src/Http/Sessions/Cookies.antt =====
-- A session from its cookie's making to its end, and what every admitted request has.
use textbee_gateway.Prelude.{
  ℕ, ◌<◌, ◌≡◌, ◌≢◌, ◌⊎◌, refl, ap, ◌∙◌, arith, Bool, true, false, ◌&&◌, ◌||◌, Option, none, some,
  List, [], ◌∷◌, ◌++◌, ltb, ltb→lt, All, All-append, All-map, inl, inr,
}
use textbee_gateway.Core.Phone.{Text, is_space}
use textbee_gateway.Http.Sessions.{
  cut_at, parse_cookies, cookie, bearer_token, safe_equal, sign_dashboard_session,
  create_dashboard_session, serialize_session_cookie, join_parts, signed_until, valid_parts,
  valid_session, bearer_matches, is_authenticated, dashboard_session_cookie,
}
use textbee_gateway.Http.Sessions.Headers.{
  Lacks, same_text_refl, same_text_iff, cut_at-append, cut_at_inv, IsPlain, browser_header,
  header-read,
}

-- What a browser keeps of a cookie that is set: the pair in front of the attributes.
abbrev pub in_front : Option (Text × Text) → Text → Text
in_front none s = s
in_front (some p) s = p.0

abbrev pub kept_pair : Text → Text
kept_pair set_cookie = in_front (cut_at b';' set_cookie) set_cookie

-- The characters of a digest in base64url and of digits.
abbrev pub IsToken : ℕ → Type 0
IsToken c = (c ≢ b';') × (is_space c ≡ false)

dashboard-IsPlain : (value : Text) → All IsToken value → IsPlain dashboard_session_cookie value
unfolding is_space
dashboard-IsPlain value h = record {
  starts = λ e. cc;
  no_equals = ground arith;
  no_semicolon =
      All-append (λ d. d ≢ b';') dashboard_session_cookie (b'=' ∷ value) (ground arith)
        ((λ e. omega (arith, e)), All-map (λ c t. t.0) value h);
  no_space =
      All-append (λ c. is_space c ≡ false) dashboard_session_cookie (b'=' ∷ value) (ground arith)
        (refl, All-map (λ c t. t.1) value h);
}

and_true : (b : Bool) → (b && true) ≡ b
and_true b = ground arith

and_inv : (a b : Bool) → (a && b) ≡ true → (a ≡ true) × (b ≡ true)
and_inv a b h = ground arith

or_inv : (a b : Bool) → (a || b) ≡ true → (a ≡ true) ⊎ (b ≡ true)
or_inv a b h = ground arith

module _ (utf8 : Text → List ℕ) (show : ℕ → Text) (to_number : Text → Option ℕ)
    (hmac : Text → Text → Text) where
  created :
      (key : Text) (expires_at : ℕ)
      → create_dashboard_session utf8 show to_number hmac expires_at key
        ≡ show expires_at ++ b'.' ∷ sign_dashboard_session utf8 show to_number hmac expires_at key
  unfolding create_dashboard_session
  created key expires_at = refl

  safe_equal_refl : (s : Text) → safe_equal utf8 show to_number hmac s s ≡ true
  unfolding safe_equal
  safe_equal_refl s = same_text_refl (utf8 s)

  valid_parts_shown :
      (now : ℕ) (key signature s : Text)
      → s ≢ []
      → valid_parts utf8 show to_number hmac now key (some (s, signature))
        ≡ signed_until utf8 show to_number hmac now key signature (to_number s)
  unfolding valid_parts
  valid_parts_shown now key signature [] h = absurd (h refl)
  valid_parts_shown now key signature (c ∷ s) h = refl

  kept-serialize :
      (now expires_at : ℕ) (value : Text) (secure : Bool)
      → All IsToken value
      → kept_pair (serialize_session_cookie utf8 show to_number hmac now value expires_at secure)
        ≡ dashboard_session_cookie ++ b'=' ∷ value
  unfolding serialize_session_cookie join_parts
  kept-serialize now expires_at value secure h = rw (
      cut_at-append b';' (dashboard_session_cookie ++ b'=' ∷ value) _
        (dashboard-IsPlain value h).no_semicolon)

  -- A session that ends at `expires_at`, whose digits and digest are of token characters and whose
  -- digits have no full stop and are read back by `Number`: a browser that keeps the cookie, with
  -- whatever other cookies before it, and that sends no bearer token, is admitted just until then.
  pub session_until :
      (now later expires_at k : ℕ) (key authorization : Text) (secure : Bool) (others : Option Text)
      → bearer_token authorization ≡ none
      → to_number (show expires_at) ≡ some expires_at
      → show expires_at ≢ []
      → Lacks b'.' (show expires_at)
      → All IsToken (create_dashboard_session utf8 show to_number hmac expires_at (k ∷ key))
      → is_authenticated utf8 show to_number hmac later (k ∷ key) authorization (
          browser_header others (
            kept_pair (
              serialize_session_cookie utf8 show to_number hmac now
                (create_dashboard_session utf8 show to_number hmac expires_at (k ∷ key))
                expires_at
                secure)))
        ≡ ltb later expires_at
  unfolding is_authenticated valid_session
  session_until now later expires_at k key authorization secure others bare read shown no_dot
        token =
      let value = create_dashboard_session utf8 show to_number hmac expires_at (k ∷ key) in
      let value_is = created (k ∷ key) expires_at in
      rw
        (
          bare,
          bearer_matches,
          kept-serialize now expires_at value secure token,
          header-read others dashboard_session_cookie value (dashboard-IsPlain value token),
          value_is,
          cut_at-append b'.' (show expires_at)
              (sign_dashboard_session utf8 show to_number hmac expires_at (k ∷ key)) no_dot,
          valid_parts_shown later (k ∷ key) _ (show expires_at) shown,
          read,
          signed_until,
          safe_equal_refl,
        )
        (and_true (ltb later expires_at))

  -- A cookie that names a time after now and carries the digest of that time.
  pub record SignedSession (now : ℕ) (key cookies : Text) : Type 0 where
    pub digits : Text
    pub signature : Text
    pub expires_at : ℕ
    pub found :
        cookie dashboard_session_cookie (parse_cookies cookies) ≡ some (digits ++ b'.' ∷ signature)
    pub read : to_number digits ≡ some expires_at
    pub in_time : now < expires_at
    pub signed :
        utf8 signature ≡ utf8 (sign_dashboard_session utf8 show to_number hmac expires_at key)

  signed_until_inv :
      (now : ℕ) (key signature : Text) (o : Option ℕ)
      → signed_until utf8 show to_number hmac now key signature o ≡ true
      → (expires_at : ℕ) × (o ≡ some expires_at)
        × (now < expires_at)
        × (utf8 signature ≡ utf8 (sign_dashboard_session utf8 show to_number hmac expires_at key))
  unfolding signed_until safe_equal
  signed_until_inv now key signature none h = cc
  signed_until_inv now key signature (some e) h =
      let both = and_inv _ _ h in (e, refl, ltb→lt now e both.0, same_text_iff _ _ both.1)

  valid_parts_inv :
      (now : ℕ) (key cookies : Text) (o : Option (Text × Text)) (session : Text)
      → cookie dashboard_session_cookie (parse_cookies cookies) ≡ some session
      → cut_at b'.' session ≡ o
      → valid_parts utf8 show to_number hmac now key o ≡ true
      → SignedSession now key cookies
  unfolding valid_parts
  valid_parts_inv now key cookies none session f e h = cc
  valid_parts_inv now key cookies (some ([], signature)) session f e h = cc
  valid_parts_inv now key cookies (some (c ∷ s, signature)) session f e h =
      let (expires_at, read, in_time, signed) = signed_until_inv now key signature _ h in
      record {
        digits = c ∷ s;
        signature = signature;
        expires_at = expires_at;
        found = f ∙ ap some (cut_at_inv b'.' session (c ∷ s) signature e);
        read = read;
        in_time = in_time;
        signed = signed;
      }

  valid_session_inv :
      (now : ℕ) (key cookies : Text) (o : Option Text)
      → cookie dashboard_session_cookie (parse_cookies cookies) ≡ o
      → valid_session utf8 show to_number hmac now key o ≡ true
      → SignedSession now key cookies
  unfolding valid_session
  valid_session_inv now key cookies none f h = cc
  valid_session_inv now key cookies (some session) f h =
      valid_parts_inv now key cookies _ session f refl h

  bearer_matches_inv :
      (key : Text) (o : Option Text)
      → bearer_matches utf8 show to_number hmac key o ≡ true
      → (token : Text) × (o ≡ some token) × (utf8 token ≡ utf8 key)
  unfolding bearer_matches safe_equal
  bearer_matches_inv key none h = cc
  bearer_matches_inv key (some token) h = (token, refl, same_text_iff _ _ h)

  -- Whoever is admitted, an interface key is set and the request has the key itself as its bearer
  -- token, or a session cookie that names a time after now and carries the digest of that time.
  pub is_authenticated_inv :
      (now : ℕ) (key authorization cookies : Text)
      → is_authenticated utf8 show to_number hmac now key authorization cookies ≡ true
      → (key ≢ [])
        × (((token : Text) × (bearer_token authorization ≡ some token) × (utf8 token ≡ utf8 key))
            ⊎ SignedSession now key cookies)
  unfolding is_authenticated
  is_authenticated_inv now [] authorization cookies h = cc
  is_authenticated_inv now (k ∷ key) authorization cookies h = (
    (λ e. cc),
    elim (or_inv _ _ h) [
      | inl b ↦ inl (bearer_matches_inv (k ∷ key) (bearer_token authorization) b)
      | inr v ↦ inr (valid_session_inv now (k ∷ key) cookies _ refl v)
    ],
  )
