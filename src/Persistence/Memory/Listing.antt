-- ===== src/Persistence/Memory/Listing.antt =====
-- What the listings of the in-memory store give: the newest first, and the first of them.
use mathlib.Core.List.Permᴰ
use mathlib.Core.List.{Perm, Permᴰ}
use textbee_gateway.Prelude.{
  ℕ, ◌≡◌, refl, Bool, true, false, String, Option, List, [], ◌∷◌, Bool-cases, inl, inr,
}
use textbee_gateway.JsMap.{values}
use textbee_gateway.Core.Types.{CallSession}
use textbee_gateway.Persistence.Memory.{MemoryStore, insert, sort, limited, list_calls}

module _ {A : Type 0} (before : A → A → Bool) where
  -- No element should go in front of the one that stands right before it.
  abbrev pub IsSorted : List A → Type 0
  IsSorted [] = Unit
  IsSorted (x ∷ []) = Unit
  IsSorted (x ∷ y ∷ ys) = (before y x ≡ false) × IsSorted (y ∷ ys)

  insert-Permᴰ : (x : A) (xs : List A) → Permᴰ (x ∷ xs) (insert before x xs)
  unfolding insert
  insert-Permᴰ x [] = Permᴰ.cons refl Permᴰ.nil
  insert-Permᴰ x (y ∷ ys) = elim (Bool-cases (before y x)) [
    | inl front ↦
        rw front (Permᴰ.trans (Permᴰ.swap refl refl) (Permᴰ.cons refl (insert-Permᴰ x ys)))
    | inr back ↦ rw back (Permᴰ.refl (x ∷ y ∷ ys))
  ]

  sort-Permᴰ : (xs : List A) → Permᴰ xs (sort before xs)
  unfolding sort
  sort-Permᴰ [] = Permᴰ.nil
  sort-Permᴰ (x ∷ xs) =
      Permᴰ.trans (Permᴰ.cons refl (sort-Permᴰ xs)) (insert-Permᴰ x (sort before xs))

  insert-IsSorted :
      (x : A) (xs : List A)
      → ((a b : A) → before a b ≡ true → before b a ≡ false)
      → IsSorted xs
      → IsSorted (insert before x xs)
  unfolding insert
  insert-IsSorted x [] asym h = tt
  insert-IsSorted x (y ∷ []) asym h = elim (Bool-cases (before y x)) [
    | inl front ↦ rw front (asym y x front, tt)
    | inr back ↦ rw back (back, tt)
  ]
  insert-IsSorted x (y ∷ z ∷ zs) asym h = elim (Bool-cases (before y x)) [
    | inl front ↦
        let rest = insert-IsSorted x (z ∷ zs) asym h.1 in
        elim (Bool-cases (before z x)) [
          | inl front' ↦ rw (front, front') (h.0, rw front' at rest)
          | inr back' ↦ rw (front, back') (asym y x front, rw back' at rest)
        ]
    | inr back ↦ rw back (back, h)
  ]

  sort-IsSorted :
      (xs : List A)
      → ((a b : A) → before a b ≡ true → before b a ≡ false)
      → IsSorted (sort before xs)
  unfolding sort
  sort-IsSorted [] asym = tt
  sort-IsSorted (x ∷ xs) asym = insert-IsSorted x (sort before xs) asym (sort-IsSorted xs asym)

module _ {Config : Type 0} where
  -- Where the comparison never puts two texts each behind the other, the calls that are listed are
  -- the first `limit` ones, or all without a limit, of a list that has every stored call once and
  -- no call right before one that started later.
  pub list_calls_newest :
      (after : String → String → Bool) (limit : Option ℕ) (s : MemoryStore Config)
      → ((a b : String) → after a b ≡ true → after b a ≡ false)
      → (all : List CallSession) × (list_calls after limit s ≡ limited limit all)
        × Perm (values s.calls) all
        × IsSorted (λ a b. after a.started_at b.started_at) all
  unfolding list_calls
  list_calls_newest after limit s asym =
      let newer = λ (a b : CallSession). after a.started_at b.started_at in
      (
        sort newer (values s.calls),
        refl,
        ∣ sort-Permᴰ newer (values s.calls) ∣₁,
        sort-IsSorted newer (values s.calls) (λ a b. asym a.started_at b.started_at),
      )
