-- ===== src/Core/Session/Routing/Choice.antt =====
-- Which rule is chosen, and what a rule's place in the list decides.
use mathlib.Core.Path.{subst}
use mathlib.Core.List.Memᴰ
use mathlib.Core.List.{Memᴰ}
use textbee_gateway.Prelude.{
  ◌≡◌, ◌⊎◌, ◌↔◌, inl, inr, refl, sym, Bool, true, false, String, none, some, List, [], ◌∷◌, find,
  select, All, Bool-cases, Option-cases,
}
use textbee_gateway.Core.Types.{ChannelKind, voice, sms, mms, chat, RoutingRule}
use textbee_gateway.Core.Session.Routing.{
  same_channel, prefix_matches, is_default, or_else, first, choose_rule,
}

same_channel-eq : (a b : ChannelKind) → same_channel a b ≡ true → a ≡ b
unfolding same_channel
same_channel-eq voice voice h = refl
same_channel-eq sms sms h = refl
same_channel-eq mms mms h = refl
same_channel-eq chat chat h = refl
same_channel-eq voice b h = cc
same_channel-eq sms b h = cc
same_channel-eq mms b h = cc
same_channel-eq chat b h = cc

module _ {A : Type 0} (p : A → Bool) where
  find-some : (xs : List A) (x : A) → find p xs ≡ some x → Memᴰ x xs × (p x ≡ true)
  find-some [] x h = cc
  find-some (y ∷ ys) x h = elim (Bool-cases (p y)) [
    | inl hit ↦
        let same : y ≡ x = cc (rw (hit, find) at h) in (Memᴰ.head (sym same), rw (← same) hit)
    | inr miss ↦ let (m, q) = find-some ys x (rw (miss, find) at h) in (Memᴰ.tail m, q)
  ]

  find-none : (xs : List A) → find p xs ≡ none → All (λ x. p x ≡ false) xs
  find-none [] h = tt
  find-none (y ∷ ys) h = elim (Bool-cases (p y)) [
    | inl hit ↦ cc (rw (hit, find) at h)
    | inr miss ↦ (miss, find-none ys (rw (miss, find) at h))
  ]

  select-mem : (xs : List A) (x : A) → Memᴰ x (select p xs) → Memᴰ x xs × (p x ≡ true)
  select-mem [] x m = absurd (Memᴰ.not-nil m)
  select-mem (y ∷ ys) x m = elim (Bool-cases (p y)) [
    | inl hit ↦ elim (Memᴰ.cases_cons (rw (hit, select) at m)) [
      | inl e ↦ (Memᴰ.head e, rw e hit)
      | inr later ↦ let (m', q) = select-mem ys x later in (Memᴰ.tail m', q)
    ]
    | inr miss ↦ let (m', q) = select-mem ys x (rw (miss, select) at m) in (Memᴰ.tail m', q)
  ]

  select-eq-nil : (xs : List A) → select p xs ≡ [] → All (λ x. p x ≡ false) xs
  select-eq-nil [] h = tt
  select-eq-nil (y ∷ ys) h = elim (Bool-cases (p y)) [
    | inl hit ↦ cc (rw (hit, select) at h)
    | inr miss ↦ (miss, select-eq-nil ys (rw (miss, select) at h))
  ]

abbrev pub candidates : List RoutingRule → ChannelKind → List RoutingRule
candidates routing channel = select (λ r. same_channel r.channel channel) routing

-- The rule is one of the channel's, and no rule of the channel has a better claim to the address:
-- a rule with a prefix of it goes first, then a rule marked "*", then any.
pub record IsChoice (routing : List RoutingRule) (channel : ChannelKind) (address : String)
    (r : RoutingRule) : Type 0 where
  pub listed : Memᴰ r routing
  pub of_channel : r.channel ≡ channel
  pub best :
      (prefix_matches address r.match ≡ true)
      ⊎ (All (λ x. prefix_matches address x.match ≡ false) (candidates routing channel)
          × ((is_default r.match ≡ true)
              ⊎ All (λ x. is_default x.match ≡ false) (candidates routing channel)))

candidate-IsChoice :
    (routing : List RoutingRule) (channel : ChannelKind) (address : String) (r : RoutingRule)
    → Memᴰ r (candidates routing channel)
    → (prefix_matches address r.match ≡ true)
      ⊎ (All (λ x. prefix_matches address x.match ≡ false) (candidates routing channel)
          × ((is_default r.match ≡ true)
              ⊎ All (λ x. is_default x.match ≡ false) (candidates routing channel)))
    → IsChoice routing channel address r
candidate-IsChoice routing channel address r m best =
    let (listed, same) = select-mem (λ x. same_channel x.channel channel) routing r m in
    record { listed = listed; of_channel = same_channel-eq r.channel channel same; best = best }

first-mem : {A : Type 0} (xs : List A) (x : A) → first xs ≡ some x → Memᴰ x xs
first-mem [] x h = cc
first-mem (y ∷ ys) x h = Memᴰ.head (cc)

-- The rule that is chosen for a channel and an address is the best that there is, and there is one
-- unless no rule is for the channel.
pub choose_rule-IsChoice :
    (routing : List RoutingRule) (channel : ChannelKind) (address : String) (r : RoutingRule)
    → choose_rule routing channel address ≡ some r
    → IsChoice routing channel address r
unfolding choose_rule
choose_rule-IsChoice routing channel address r h =
    let cs = candidates routing channel in
    let hits : RoutingRule → Bool = λ x. prefix_matches address x.match in
    let defaults : RoutingRule → Bool = λ x. is_default x.match in
    elim (Option-cases (find hits cs)) [
      | inr (x, found) ↦
          let (m, q) = find-some hits cs x found in
          let same : x ≡ r = cc (rw (found, or_else) at h) in
          candidate-IsChoice routing channel address r (subst (λ y. Memᴰ y cs) same m)
            (inl (subst (λ y. prefix_matches address y.match ≡ true) same q))
      | inl missed ↦ elim (Option-cases (find defaults cs)) [
        | inr (x, found) ↦
            let (m, q) = find-some defaults cs x found in
            let same : x ≡ r = cc (rw (missed, found) at h) in
            candidate-IsChoice routing channel address r (subst (λ y. Memᴰ y cs) same m)
              (inr (find-none hits cs missed, inl (subst (λ y. is_default y.match ≡ true) same q)))
        | inl without ↦
            candidate-IsChoice routing channel address r
              (first-mem cs r (rw (missed, without) at h))
              (inr (find-none hits cs missed, inr (find-none defaults cs without)))
      ]
    ]

same_channel_refl : (a : ChannelKind) → same_channel a a ≡ true
unfolding same_channel
same_channel_refl voice = refl
same_channel_refl sms = refl
same_channel_refl mms = refl
same_channel_refl chat = refl

-- Of two rules with prefixes of the address it is the place in the list that decides: a first rule
-- that matches is chosen, even where a later one matches more of the address.
pub choose_rule_first :
    (r : RoutingRule) (rest : List RoutingRule) (address : String)
    → prefix_matches address r.match ≡ true
    → choose_rule (r ∷ rest) r.channel address ≡ some r
unfolding choose_rule
choose_rule_first r rest address h = rw (same_channel_refl, select, h, find)

select-none :
    {A : Type 0} (p : A → Bool) (xs : List A) → All (λ x. p x ≡ false) xs → select p xs ≡ []
select-none p [] h = refl
select-none p (x ∷ xs) h = rw (h.0, select) (select-none p xs h.1)

nothing_first :
    (cs : List RoutingRule) (address : String)
    → or_else
        (find (λ r. prefix_matches address r.match) cs)
        (or_else (find (λ r. is_default r.match) cs) (first cs))
      ≡ none
    → cs ≡ []
nothing_first [] address h = refl
nothing_first (c ∷ cs) address h =
    elim (Option-cases (find (λ r. prefix_matches address r.match) (c ∷ cs))) [
      | inr (x, found) ↦ cc (rw (found, or_else) at h)
      | inl missed ↦ elim (Option-cases (find (λ r. is_default r.match) (c ∷ cs))) [
        | inr (x, found) ↦ cc (rw (missed, found, or_else) at h)
        | inl without ↦ cc (rw (missed, without, or_else) at h)
      ]
    ]

-- No rule is chosen exactly when none is for the channel.
pub choose_rule-eq-none_iff :
    (routing : List RoutingRule) (channel : ChannelKind) (address : String)
    → (choose_rule routing channel address ≡ none)
      ↔ All (λ r. same_channel r.channel channel ≡ false) routing
unfolding choose_rule
choose_rule-eq-none_iff routing channel address = (
  λ h.
      select-eq-nil (λ r. same_channel r.channel channel) routing
        (nothing_first (candidates routing channel) address h),
  λ h. rw (select-none (λ r. same_channel r.channel channel) routing h),
)
