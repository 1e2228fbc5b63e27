-- ===== src/Adapters/TextBee/Seen.antt =====
-- The identifiers that the adapter remembers by itself.
use textbee_gateway.Prelude.{
  ◌≤◌, ◌≡◌, arith, true, false, String, List, [], ◌∷◌, ◌++◌, length, length-append, ltb, ===_refl,
  Bool-cases, inl, inr,
}
use textbee_gateway.Adapters.TextBee.{contains, evict, mark_fallback}

contains-snoc : (s : String) (ts : List String) → contains s (ts ++ s ∷ []) ≡ true
unfolding contains
contains-snoc s [] = rw ===_refl
contains-snoc s (t ∷ ts) = ground (arith, contains-snoc s ts)

evict_bounded : (ts : List String) → length ts ≤ 2001 → length (evict ts) ≤ 2000
unfolding evict
evict_bounded [] h = omega arith
evict_bounded (t ∷ ts) h = ground arith

-- What was added last is not what goes.
contains-evict : (s : String) (ts : List String) → contains s (evict (ts ++ s ∷ [])) ≡ true
unfolding evict
contains-evict s [] = unfold contains in rw ===_refl
contains-evict s (t ∷ ts) = elim (Bool-cases (ltb 2000 (length (t ∷ (ts ++ s ∷ []))))) [
  | inl full ↦ rw full (contains-snoc s ts)
  | inr room ↦ rw room (contains-snoc s (t ∷ ts))
]

-- Marking an identifier keeps at most 2000 of them, and a second mark right after it finds it.
pub mark_fallback_lem :
    (s : String) (seen : List String)
    → length seen ≤ 2000
    → (length (mark_fallback s seen).1 ≤ 2000)
      × ((mark_fallback s (mark_fallback s seen).1).0 ≡ false)
unfolding mark_fallback
mark_fallback_lem s seen h = elim (Bool-cases (contains s seen)) [
  | inl old ↦ rw old (h, rw old)
  | inr new ↦ rw new (
    evict_bounded (seen ++ s ∷ []) (omega (arith, length-append {0} seen (s ∷ []))),
    rw (contains-evict s seen),
  )
]
