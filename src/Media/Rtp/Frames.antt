-- ===== src/Media/Rtp/Frames.antt =====
-- The frames of a buffer.
use mathlib.Core.List.{flatten}
use native.Mathlib.Decide.{dec_le}
use textbee_gateway.Prelude.{
  ℕ, zero, suc, ◌+◌, ◌*◌, ◌<◌, ◌≤◌, ◌≡◌, ◌⊎◌, inl, inr, refl, arith, List, [], ◌∷◌, length, take,
  drop, take-append-drop, length-take, length-drop,
}
use textbee_gateway.Media.Bytes.{Buffer}
use textbee_gateway.Media.Rtp.{chunk_from, chunk_into_frames}

-- Every frame but the last has the full size; the last is not empty and no larger.
abbrev pub AreFrames : ℕ → List Buffer → Type 0
AreFrames n [] = Unit
AreFrames n (f ∷ []) = (0 < length f) × (length f ≤ n)
AreFrames n (f ∷ g ∷ fs) = (length f ≡ n) × AreFrames n (g ∷ fs)

chunk_from-flatten :
    (fuel n : ℕ) (buf : Buffer) → 0 < n → length buf ≤ fuel → flatten (chunk_from fuel n buf) ≡ buf
unfolding chunk_from flatten
chunk_from-flatten zero n [] pos h = refl
chunk_from-flatten zero n (b ∷ buf) pos h = absurd (omega arith)
chunk_from-flatten (suc fuel) n [] pos h = refl
chunk_from-flatten (suc fuel) (suc k) (b ∷ buf) pos h =
    rw (chunk_from-flatten fuel (suc k) (drop k buf) pos (omega (arith, length-drop {0} k buf)))
      (take-append-drop (suc k) (b ∷ buf))
chunk_from-flatten (suc fuel) zero (b ∷ buf) pos h = absurd (omega arith)

drop-eq-nil : {A : Type 0} (n : ℕ) (xs : List A) → length xs ≤ n → drop n xs ≡ []
drop-eq-nil zero [] h = refl
drop-eq-nil (suc n) [] h = refl
drop-eq-nil zero (x ∷ xs) h = absurd (omega arith)
drop-eq-nil (suc n) (x ∷ xs) h = drop-eq-nil n xs (omega arith)

-- After a last frame that is not full nothing is left.
chunk_from-drop :
    (fuel k : ℕ) (buf : Buffer) → length buf ≤ k → chunk_from fuel (suc k) (drop k buf) ≡ []
unfolding chunk_from
chunk_from-drop zero k buf h = refl
chunk_from-drop (suc fuel) k buf h = rw (drop-eq-nil k buf h)

chunk_from-count :
    (fuel n : ℕ) (buf : Buffer)
    → 0 < n
    → length buf ≤ fuel
    → (length buf ≤ n * length (chunk_from fuel n buf))
      × (n * length (chunk_from fuel n buf) < length buf + n)
unfolding chunk_from
chunk_from-count zero n [] pos h = omega arith
chunk_from-count zero n (b ∷ buf) pos h = absurd (omega arith)
chunk_from-count (suc fuel) n [] pos h = omega arith
chunk_from-count (suc fuel) zero (b ∷ buf) pos h = absurd (omega arith)
chunk_from-count (suc fuel) (suc k) (b ∷ buf) pos h =
    let shorter = length-drop {0} k buf in
    let (enough, few) = chunk_from-count fuel (suc k) (drop k buf) pos (omega arith) in
    (
      omega arith,
      elim (dec_le (length buf) k) [
        | yes le ↦ rw (chunk_from-drop fuel k buf le) (omega arith)
        | no more ↦ omega arith
      ],
    )

AreFrames-cons :
    (n : ℕ) (f : Buffer) (fs : List Buffer)
    → 0 < length f
    → length f ≤ n
    → (fs ≡ []) ⊎ (length f ≡ n)
    → AreFrames n fs
    → AreFrames n (f ∷ fs)
AreFrames-cons n f [] pos le last h = (pos, le)
AreFrames-cons n f (g ∷ fs) pos le last h = (ground arith, h)

chunk_from-AreFrames : (fuel n : ℕ) (buf : Buffer) → 0 < n → AreFrames n (chunk_from fuel n buf)
unfolding chunk_from
chunk_from-AreFrames zero n buf pos = tt
chunk_from-AreFrames (suc fuel) n [] pos = tt
chunk_from-AreFrames (suc fuel) zero (b ∷ buf) pos = absurd (omega arith)
chunk_from-AreFrames (suc fuel) (suc k) (b ∷ buf) pos =
    AreFrames-cons (suc k) (b ∷ take k buf) (chunk_from fuel (suc k) (drop k buf)) (omega arith)
      (omega (arith, length-take {0} k buf))
      (elim (dec_le (length buf) k) [
        | yes le ↦ inl (chunk_from-drop fuel k buf le)
        | no more ↦ inr (omega (arith, length-take {0} k buf))
      ])
      (chunk_from-AreFrames fuel (suc k) (drop k buf) pos)

-- Cutting a buffer into frames of a positive size loses nothing and keeps the order; every frame
-- but the last is full and the last is not empty; and there are no more frames than needed.
pub chunk_into_frames_lem :
    (buf : Buffer) (n : ℕ)
    → 0 < n
    → (flatten (chunk_into_frames buf n) ≡ buf)
      × AreFrames n (chunk_into_frames buf n)
      × (length buf ≤ n * length (chunk_into_frames buf n))
      × (n * length (chunk_into_frames buf n) < length buf + n)
unfolding chunk_into_frames
chunk_into_frames_lem buf n pos =
    let (enough, few) = chunk_from-count (length buf) n buf pos (omega arith) in
    (
      chunk_from-flatten (length buf) n buf pos (omega arith),
      chunk_from-AreFrames (length buf) n buf pos,
      enough,
      few,
    )
