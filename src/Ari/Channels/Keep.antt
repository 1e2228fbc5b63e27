-- ===== src/Ari/Channels/Keep.antt =====
-- The operations of a client keep its calls apart.
use mathlib.Core.Path.{subst}
use mathlib.Core.Option.{some-injective, some-ne-none}
use textbee_gateway.Prelude.{
  ◌≡◌, ◌≢◌, refl, sym, ap, ◌∙◌, arith, true, String, none, some, [], ◌∷◌, ◌===◌, ===_iff, ===_refl,
  Bool-cases, inl, inr, All,
}
use textbee_gateway.JsMap.{JsMap, get, set, delete}
use textbee_gateway.Ari.Channels.{Apart, IsApart, ===_false, found-All}
use textbee_gateway.Ari.{AriCall, find_by_channel}

All-set {κ} :
    (P : String × AriCall → Type κ) (k : String) (c : AriCall) (m : JsMap AriCall)
    → P (k, c)
    → All P m
    → All P (set k c m)
unfolding set
All-set P k c [] p h = (p, tt)
All-set P k c ((j, d) ∷ m) p h = elim (Bool-cases (j === k)) [
  | inl same ↦ rw same (subst (λ i. P (i, c)) (sym ((===_iff j k).0 same)) p, h.1)
  | inr differs ↦ rw differs (h.0, All-set P k c m p h.1)
]

All-delete {κ} :
    (P : String × AriCall → Type κ) (k : String) (m : JsMap AriCall) → All P m → All P (delete k m)
unfolding delete
All-delete P k [] h = tt
All-delete P k ((j, d) ∷ m) h = elim (Bool-cases (j === k)) [
  | inl same ↦ rw same (All-delete P k m h.1)
  | inr differs ↦ rw differs (h.0, All-delete P k m h.1)
]

pub set_new-IsApart :
    (c : AriCall) (m : JsMap AriCall)
    → get c.call.id m ≡ none
    → find_by_channel c.channel_id m ≡ none
    → IsApart m
    → IsApart (set c.call.id c m)
unfolding set get find_by_channel
set_new-IsApart c [] h f w = (refl, tt, tt)
set_new-IsApart c ((j, d) ∷ m) h f w =
    let a = ===_refl j in
    elim (Bool-cases (j === c.call.id)) [
      | inl same ↦ absurd (some-ne-none d (rw same at h))
      | inr differs ↦ elim (Bool-cases (d.channel_id === c.channel_id)) [
        | inl same ↦ absurd (some-ne-none d (rw same at f))
        | inr differs2 ↦ rw differs (
          w.0,
          All-set (Apart (j, d)) c.call.id c m
              (
                λ q. ground (arith, ===_iff j c.call.id),
                λ q. ground (arith, ===_iff d.channel_id c.channel_id),
              )
              w.1,
          set_new-IsApart c m (rw differs at h) (rw differs2 at f) w.2,
        )
      ]
    ]

pub set_old-IsApart :
    (ch : String) (c new : AriCall) (m : JsMap AriCall)
    → find_by_channel ch m ≡ some c
    → new.call.id ≡ c.call.id
    → new.channel_id ≡ c.channel_id
    → IsApart m
    → IsApart (set c.call.id new m)
unfolding set find_by_channel
set_old-IsApart ch c new [] h i e w = cc
set_old-IsApart ch c new ((k, d) ∷ m) h i e w = elim (Bool-cases (d.channel_id === ch)) [
  | inl same ↦
      let d_c : d ≡ c = some-injective d c (rw same at h) in
      let k_c : (k === c.call.id) ≡ true = (===_iff k c.call.id).1 (rw (← d_c) (sym w.0)) in
      rw k_c (
        rw (i, ← d_c) w.0,
        subst (λ x. All (λ q. (q.0 ≢ k) × (q.1.channel_id ≢ x)) m)
            (ap (λ x. x.channel_id) d_c ∙ sym e) w.1,
        w.2,
      )
  | inr differs ↦
      let found : find_by_channel ch m ≡ some c = rw differs at h in
      let apart = found-All (Apart (k, d)) ch m c w.2 found w.1 in
      rw (===_false k c.call.id (λ q. apart.0 (sym q))) (
        w.0,
        All-set (Apart (k, d)) c.call.id new m (apart.0, rw e apart.1) w.1,
        set_old-IsApart ch c new m found i e w.2,
      )
]

pub delete-IsApart : (k : String) (m : JsMap AriCall) → IsApart m → IsApart (delete k m)
unfolding delete
delete-IsApart k [] w = tt
delete-IsApart k ((j, d) ∷ m) w = elim (Bool-cases (j === k)) [
  | inl same ↦ rw same (delete-IsApart k m w.2)
  | inr differs ↦ rw differs (w.0, All-delete (Apart (j, d)) k m w.1, delete-IsApart k m w.2)
]
