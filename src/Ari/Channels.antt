-- ===== src/Ari/Channels.antt =====
-- The calls of a client, as their channels find them: no two have one key or one channel.
pub mod Keep
use mathlib.Core.Path.{subst}
use mathlib.Core.Option.{some-injective, some-ne-none}
use textbee_gateway.Prelude.{
  ◌≡◌, ◌≢◌, refl, sym, ap, ◌∙◌, arith, Bool, true, false, String, Option, none, some, [], ◌∷◌,
  ◌===◌, ===_iff, ===_refl, if◌then◌else◌, Bool-cases, inl, inr, All,
}
use textbee_gateway.JsMap.{JsMap, get, set, delete}
use textbee_gateway.Core.Types.{CallState}
use textbee_gateway.Core.Session.Routing.{or_else}
use textbee_gateway.Ari.{AriCall, in_state, find_by_channel}

abbrev pub Apart : String × AriCall → String × AriCall → Type 0
Apart (k, c) (j, d) = (j ≢ k) × (d.channel_id ≢ c.channel_id)

-- Every call stands under its identifier, and no two have a key or a channel in common.
abbrev pub IsApart : JsMap AriCall → Type 0
IsApart [] = Unit
IsApart ((k, c) ∷ m) = (c.call.id ≡ k) × All (Apart (k, c)) m × IsApart m

===_false : (s t : String) → s ≢ t → (s === t) ≡ false
===_false s t h = ground (arith, ===_iff s t)

pub find_by_channel-channel :
    (ch : String) (m : JsMap AriCall) (c : AriCall)
    → find_by_channel ch m ≡ some c
    → c.channel_id ≡ ch
unfolding find_by_channel
find_by_channel-channel ch [] c h = cc
find_by_channel-channel ch ((k, d) ∷ m) c h = elim (Bool-cases (d.channel_id === ch)) [
  | inl same ↦
      let at_head : some d ≡ some c = rw same at h in ground (arith, ===_iff d.channel_id ch)
  | inr other ↦ find_by_channel-channel ch m c (rw other at h)
]

-- What holds of every entry holds of the one that a channel finds.
found-All {κ} :
    (P : String × AriCall → Type κ) (ch : String) (m : JsMap AriCall) (c : AriCall)
    → IsApart m
    → find_by_channel ch m ≡ some c
    → All P m
    → P (c.call.id, c)
unfolding find_by_channel
found-All P ch [] c w h p = cc
found-All P ch ((k, d) ∷ m) c w h p = elim (Bool-cases (d.channel_id === ch)) [
  | inl same ↦
      let d_c : d ≡ c = some-injective d c (rw same at h) in
      subst (λ x. P (x.call.id, x)) d_c (subst (λ j. P (j, d)) (sym w.0) p.0)
  | inr other ↦ found-All P ch m c w.2 (rw other at h) p.1
]

-- A call under a new key stands behind the others.
pub find_by_channel-set_new :
    (ch k : String) (c : AriCall) (m : JsMap AriCall)
    → get k m ≡ none
    → find_by_channel ch (set k c m)
      ≡ or_else (find_by_channel ch m) (if c.channel_id === ch then some c else none)
unfolding find_by_channel set get
find_by_channel-set_new ch k c [] h = refl
find_by_channel-set_new ch k c ((j, d) ∷ m) h = ground (arith, find_by_channel-set_new ch k c m)

delete_absent :
    (k : String) (c : AriCall) (m : JsMap AriCall) → All (Apart (k, c)) m → delete k m ≡ m
unfolding delete
delete_absent k c [] h = refl
delete_absent k c ((j, d) ∷ m) h = rw (===_false j k h.0.0, delete_absent k c m h.1)

find_by_channel_absent :
    (k : String) (c : AriCall) (m : JsMap AriCall)
    → All (Apart (k, c)) m
    → find_by_channel c.channel_id m ≡ none
unfolding find_by_channel
find_by_channel_absent k c [] h = refl
find_by_channel_absent k c ((j, d) ∷ m) h =
    rw (===_false d.channel_id c.channel_id h.0.1) (find_by_channel_absent k c m h.1)

-- A call that is there is changed in place: its channel finds the new one, and every other channel
-- what it found.
pub find_by_channel-set_old :
    (ch other : String) (c new : AriCall) (m : JsMap AriCall)
    → IsApart m
    → find_by_channel ch m ≡ some c
    → new.channel_id ≡ c.channel_id
    → find_by_channel other (set c.call.id new m)
      ≡ (if ch === other then some new else find_by_channel other m)
unfolding find_by_channel set
find_by_channel-set_old ch other c new [] w h e = cc
find_by_channel-set_old ch other c new ((k, d) ∷ m) w h e =
    elim (Bool-cases (d.channel_id === ch)) [
      | inl same ↦
          let d_c : d ≡ c = some-injective d c (rw same at h) in
          let k_c : (k === c.call.id) ≡ true = (===_iff k c.call.id).1 (rw (← d_c) (sym w.0)) in
          let absent = find_by_channel_absent k d m w.1 in
          ground (
            arith,
            ===_iff d.channel_id ch,
            ===_iff d.channel_id other,
            ===_iff ch other,
            ===_iff new.channel_id other,
            ap (λ x. x.channel_id) d_c,
          )
      | inr differs ↦
          let found : find_by_channel ch m ≡ some c = rw differs at h in
          let apart = found-All (Apart (k, d)) ch m c w.2 found w.1 in
          ground (
            arith,
            ===_false k c.call.id (λ q. apart.0 (sym q)),
            find_by_channel-set_old ch other c new m w.2 found e,
            ===_iff d.channel_id ch,
            ===_iff d.channel_id other,
            ===_iff ch other,
          )
    ]

-- A call that is deleted is found no more, and every other channel finds what it found.
pub find_by_channel-delete :
    (ch other : String) (c : AriCall) (m : JsMap AriCall)
    → IsApart m
    → find_by_channel ch m ≡ some c
    → find_by_channel other (delete c.call.id m)
      ≡ (if ch === other then none else find_by_channel other m)
unfolding find_by_channel delete
find_by_channel-delete ch other c [] w h = cc
find_by_channel-delete ch other c ((k, d) ∷ m) w h = elim (Bool-cases (d.channel_id === ch)) [
  | inl same ↦
      let d_c : d ≡ c = some-injective d c (rw same at h) in
      let k_c : k ≡ c.call.id = rw (← d_c) (sym w.0) in
      let gone = subst (λ i. delete i m ≡ m) k_c (delete_absent k d m w.1) in
      let absent = find_by_channel_absent k d m w.1 in
      rw ((===_iff k c.call.id).1 k_c, gone)
        (ground (arith, ===_iff d.channel_id ch, ===_iff d.channel_id other, ===_iff ch other))
  | inr differs ↦
      let found : find_by_channel ch m ≡ some c = rw differs at h in
      let apart = found-All (Apart (k, d)) ch m c w.2 found w.1 in
      ground (
        arith,
        ===_false k c.call.id (λ q. apart.0 (sym q)),
        find_by_channel-delete ch other c m w.2 found,
        ===_iff d.channel_id ch,
        ===_iff d.channel_id other,
        ===_iff ch other,
      )
]

-- The key of a call that a channel finds gives the call.
pub get-find_by_channel :
    (ch : String) (m : JsMap AriCall) {c : AriCall}
    → IsApart m
    → find_by_channel ch m ≡ some c
    → get c.call.id m ≡ some c
unfolding find_by_channel get
get-find_by_channel ch [] w h = cc
get-find_by_channel ch ((k, d) ∷ m) {c} w h = elim (Bool-cases (d.channel_id === ch)) [
  | inl same ↦
      let d_c : d ≡ c = some-injective d c (rw same at h) in
      let k_c : k ≡ c.call.id = sym w.0 ∙ ap (λ x. x.call.id) d_c in
      rw ((===_iff k c.call.id).1 k_c) (ap some d_c)
  | inr differs ↦
      let found : find_by_channel ch m ≡ some c = rw differs at h in
      let apart = found-All (Apart (k, d)) ch m c w.2 found w.1 in
      rw (===_false k c.call.id (λ q. apart.0 (sym q))) (get-find_by_channel ch m w.2 found)
]

-- Two channels that find calls of one identifier are one channel.
pub find_by_channel-injective :
    (ch other : String) (m : JsMap AriCall) {c d : AriCall}
    → IsApart m
    → find_by_channel ch m ≡ some c
    → find_by_channel other m ≡ some d
    → c.call.id ≡ d.call.id
    → ch ≡ other
find_by_channel-injective ch other m {c} {d} w f g e =
    let c_d : c ≡ d =
      some-injective c d
        (sym (get-find_by_channel ch m w f) ∙ rw e (get-find_by_channel other m w g)) in
    sym (find_by_channel-channel ch m c f)
    ∙ ap (λ x. x.channel_id) c_d
    ∙ find_by_channel-channel other m d g
