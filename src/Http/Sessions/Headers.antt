-- ===== src/Http/Sessions/Headers.antt =====
-- How a header of cookies is read: the last cookie of a name counts, whatever stands before it.
use mathlib.Core.Path.{subst}
use mathlib.Core.Option.{some-injective, none-ne-some}
use mathlib.Core.List.{map-append}
use textbee_gateway.Prelude.{
  ℕ, ◌≡◌, ◌≢◌, refl, ap, ◌∙◌, arith, true, false, Option, none, some, List, [], ◌∷◌, ◌++◌, ◌==◌,
  ==_iff, All, inl, inr, Bool-cases, Option-cases,
}
use textbee_gateway.Core.Phone.{Text, trim}
use textbee_gateway.Core.Phone.Laws.{NoSpace, trim_of_NoSpace, trim_space}
use textbee_gateway.Http.Sessions.{
  same_text, cut_at, put_front, split, onto_first, non_empty, name_value, parse_cookies, cookie,
}

abbrev pub Lacks : ℕ → Text → Type 0
Lacks c s = All (λ d. d ≢ c) s

pub same_text_refl : (s : Text) → same_text s s ≡ true
unfolding same_text
same_text_refl [] = refl
same_text_refl (c ∷ s) = ground (arith, same_text_refl s)

pub same_text_iff : (s t : Text) → same_text s t ≡ true → s ≡ t
unfolding same_text
same_text_iff [] [] h = refl
same_text_iff [] (d ∷ t) h = cc
same_text_iff (c ∷ s) [] h = cc
same_text_iff (c ∷ s) (d ∷ t) h = ground (arith, same_text_iff s t)

==_false : (d c : ℕ) → d ≢ c → (d == c) ≡ false
==_false d c h = ground (arith, ==_iff d c)

pub cut_at-append : (c : ℕ) (s t : Text) → Lacks c s → cut_at c (s ++ c ∷ t) ≡ some (s, t)
unfolding cut_at
cut_at-append c [] t h = ground arith
cut_at-append c (d ∷ s) t h = rw (==_false d c h.0, cut_at-append c s t h.1, put_front)

split-none : (c : ℕ) (s : Text) → Lacks c s → split c s ≡ s ∷ []
unfolding split onto_first
split-none c [] h = refl
split-none c (d ∷ s) h = rw (==_false d c h.0, split-none c s h.1, onto_first)

onto_first_twice :
    (d e : ℕ) (ss ts : List Text)
    → onto_first d (onto_first e ss ++ ts) ≡ onto_first d (onto_first e ss) ++ ts
unfolding onto_first
onto_first_twice d e [] ts = refl
onto_first_twice d e (s ∷ ss) ts = refl

onto_first-append :
    (d c : ℕ) (s : Text) (ss : List Text)
    → onto_first d (split c s ++ ss) ≡ onto_first d (split c s) ++ ss
unfolding split onto_first
onto_first-append d c [] ss = refl
onto_first-append d c (e ∷ s) ss = elim (Bool-cases (e == c)) [
  | inl same ↦ rw same
  | inr differs ↦ rw (differs, onto_first_twice d e (split c s) ss)
]

split-append : (c : ℕ) (s t : Text) → split c (s ++ c ∷ t) ≡ split c s ++ split c t
unfolding split
split-append c [] t = ground arith
split-append c (d ∷ s) t = elim (Bool-cases (d == c)) [
  | inl same ↦ rw same (ap (λ x. [] ∷ x) (split-append c s t))
  | inr differs ↦ rw (differs, split-append c s t, onto_first-append d c s (split c t))
]

non_empty-append : (ss ts : List Text) → non_empty (ss ++ ts) ≡ non_empty ss ++ non_empty ts
unfolding non_empty
non_empty-append [] ts = refl
non_empty-append ([] ∷ ss) ts = non_empty-append ss ts
non_empty-append ((c ∷ s) ∷ ss) ts = ap (λ x. (c ∷ s) ∷ x) (non_empty-append ss ts)

-- The last pair of a header counts, whatever comes before it.
cookie-last :
    (name value : Text) (ps : List (Text × Text))
    → cookie name (ps ++ (name, value) ∷ []) ≡ some value
unfolding cookie
cookie-last name value [] = rw (same_text_refl name)
cookie-last name value ((k, v) ∷ ps) = rw (cookie-last name value ps)

-- A pair of a name and a value of plain characters, which stands in a header after others.
pub record IsPlain (name value : Text) : Type 0 where
  pub starts : name ≢ []
  pub no_equals : Lacks b'=' name
  pub no_semicolon : Lacks b';' (name ++ b'=' ∷ value)
  pub no_space : NoSpace (name ++ b'=' ∷ value)

parse_cookies-append :
    (o t : Text) → parse_cookies (o ++ b';' ∷ t) ≡ parse_cookies o ++ parse_cookies t
unfolding parse_cookies
parse_cookies-append o t = rw (split-append b';' o t, map-append, non_empty-append, map-append)

pair-read :
    (name value : Text)
    → IsPlain name value
    → parse_cookies (name ++ b'=' ∷ value) ≡ (name, value) ∷ []
unfolding parse_cookies name_value
pair-read [] value h = absurd (h.starts refl)
pair-read (c ∷ name) value h = rw (
  split-none b';' ((c ∷ name) ++ b'=' ∷ value) h.no_semicolon,
  trim_of_NoSpace ((c ∷ name) ++ b'=' ∷ value) h.no_space,
  non_empty,
  cut_at-append b'=' (c ∷ name) value h.no_equals,
)

-- A browser puts a space behind the semicolon.
spaced_pair-read :
    (name value : Text)
    → IsPlain name value
    → parse_cookies (b' ' ∷ name ++ b'=' ∷ value) ≡ (name, value) ∷ []
unfolding parse_cookies name_value
spaced_pair-read [] value h = absurd (h.starts refl)
spaced_pair-read (c ∷ name) value h =
    let pair : Text = (c ∷ name) ++ b'=' ∷ value in
    let trimmed : trim (b' ' ∷ pair) ≡ pair = trim_space pair ∙ trim_of_NoSpace pair h.no_space in
    rw (
      split-none b';' (b' ' ∷ pair) ((λ e. omega (arith, e)), h.no_semicolon),
      trimmed,
      non_empty,
      cut_at-append b'=' (c ∷ name) value h.no_equals,
    )

-- The header of a browser that has a cookie, behind other cookies of the same site if there are any.
abbrev pub browser_header : Option Text → Text → Text
browser_header none pair = pair
browser_header (some others) pair = others ++ b';' ∷ b' ' ∷ pair

pub header-read :
    (others : Option Text) (name value : Text)
    → IsPlain name value
    → cookie name (parse_cookies (browser_header others (name ++ b'=' ∷ value))) ≡ some value
header-read none name value h = rw (pair-read name value h) (cookie-last name value [])
header-read (some o) name value h =
    rw (parse_cookies-append o (b' ' ∷ name ++ b'=' ∷ value), spaced_pair-read name value h)
      (cookie-last name value (parse_cookies o))

pub cut_at_inv : (c : ℕ) (s a b : Text) → cut_at c s ≡ some (a, b) → s ≡ a ++ c ∷ b
unfolding cut_at put_front
cut_at_inv c [] a b h = cc
cut_at_inv c (d ∷ s) a b h = elim (Bool-cases (d == c)) [
  | inl same ↦
      subst (λ (q : Text × Text). (d ∷ s) ≡ q.0 ++ c ∷ q.1)
        (some-injective ([], s) (a, b) (rw same at h)) (ap (λ x. x ∷ s) ((==_iff d c).0 same))
  | inr differs ↦
      let behind : put_front d (cut_at c s) ≡ some (a, b) = rw differs at h in
      elim (Option-cases (cut_at c s)) [
        | inl absent ↦ absurd (none-ne-some (a, b) (rw (absent, put_front) at behind))
        | inr (p, found) ↦
            subst (λ (q : Text × Text). (d ∷ s) ≡ q.0 ++ c ∷ q.1)
              (some-injective (d ∷ p.0, p.1) (a, b) (rw (found, put_front) at behind))
              (ap (λ x. d ∷ x) (cut_at_inv c s p.0 p.1 found))
      ]
]
