-- ===== src/JsMap/Laws.antt =====
-- How the operations of a map read back, and what they do to its keys.
use mathlib.Core.List.{Memᴰ}
use textbee_gateway.Prelude.{
  ◌+◌, ◌≤◌, String, true, none, some, [], ◌∷◌, ◌≡◌, ◌≢◌, refl, arith, ===_iff, ===_refl, ◌===◌,
  if◌then◌else◌, length, Bool-cases, inl, inr, sym,
}
use textbee_gateway.Prelude.{All}
use textbee_gateway.JsMap.{values, JsMap, get, set, delete, has, keys}

module _ {ℓ} {V : Type ℓ} where
  pub get-set :
      (k j : String) (v : V) (m : JsMap V)
      → get j (set k v m) ≡ (if k === j then some v else get j m)
  unfolding get set
  get-set k j v [] = refl
  get-set k j v ((i, w) ∷ m) =
      ground (arith, ===_iff k j, ===_iff i k, ===_iff i j, get-set k j v m)

  pub get-set_self : (k : String) (v : V) (m : JsMap V) → get k (set k v m) ≡ some v
  get-set_self k v m = ground (arith, get-set k k v m, ===_refl k)

  pub get-set_ne : (k j : String) (v : V) (m : JsMap V) → k ≢ j → get j (set k v m) ≡ get j m
  get-set_ne k j v m h = ground (arith, get-set k j v m, ===_iff k j)

  pub get-delete :
      (k j : String) (m : JsMap V) → get j (delete k m) ≡ (if k === j then none else get j m)
  unfolding get delete
  get-delete k j [] = ground arith
  get-delete k j ((i, w) ∷ m) =
      ground (arith, ===_iff k j, ===_iff i k, ===_iff i j, get-delete k j m)

  pub get-delete_ne : (k j : String) (m : JsMap V) → k ≢ j → get j (delete k m) ≡ get j m
  get-delete_ne k j m h = ground (arith, get-delete k j m, ===_iff k j)

  -- Two keys are set in either order, where the first of them is there already.
  pub set-set_ne :
      (k j : String) (v w : V) (m : JsMap V) {u : V}
      → k ≢ j
      → get k m ≡ some u
      → set k v (set j w m) ≡ set j w (set k v m)
  unfolding get set
  set-set_ne k j v w [] d h = cc
  set-set_ne k j v w ((i, x) ∷ m) {u} d h =
      ground (arith, ===_iff i k, ===_iff i j, set-set_ne k j v w m {u = u} d)

  pub length-set : (k : String) (v : V) (m : JsMap V) → length (set k v m) ≤ length m + 1
  unfolding set
  length-set k v [] = omega arith
  length-set k v ((i, w) ∷ m) = ground (arith, length-set k v m)

  -- Setting a key that is there changes no key and no order.
  pub keys-set_old : (k : String) (v : V) (m : JsMap V) → has k m ≡ true → keys (set k v m) ≡ keys m
  unfolding has set get
  keys-set_old k v [] h = ground arith
  keys-set_old k v ((i, w) ∷ m) h = ground (arith, keys-set_old k v m)

  pub get-keys : (k : String) (m : JsMap V) (v : V) → get k m ≡ some v → Memᴰ k (keys m)
  unfolding get
  get-keys k [] v h = cc
  get-keys k ((i, w) ∷ m) v h = elim (Bool-cases (i === k)) [
    | inl same ↦ Memᴰ.head (sym ((===_iff i k).0 same))
    | inr other ↦ Memᴰ.tail (get-keys k m v (rw other at h))
  ]

  -- What holds of every value still does with one more of which it holds.
  pub values-set {κ} :
      (P : V → Type κ) (k : String) (v : V) (m : JsMap V)
      → P v
      → All P (values m)
      → All P (values (set k v m))
  unfolding set
  values-set P k v [] p h = (p, tt)
  values-set P k v ((i, w) ∷ m) p h = elim (Bool-cases (i === k)) [
    | inl same ↦ rw same (p, h.1)
    | inr other ↦ rw other (h.0, values-set P k v m p h.1)
  ]
