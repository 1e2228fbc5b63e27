-- ===== src/Media/Engine/Ports.antt =====
-- Which port `bindAvailablePort` finds.
use native.Mathlib.Decide.{ℕ_discrete}
use textbee_gateway.Prelude.{
  ℕ, zero, suc, ◌+◌, ◌-◌, ◌*◌, ◌/◌, ◌<◌, ◌≤◌, ◌≡◌, ◌⊎◌, refl, arith, Bool, true, false, none, some,
  Bool-cases, Option-cases, inl, inr, ltb, if◌then◌else◌,
}
use textbee_gateway.Media.Engine.{MediaEngine, after_port, bind_loop, bind_available_port}

-- The next port is one of `first`, `first + 2`, … up to `last`.
pub record HasPort (e : MediaEngine) : Type 0 where
  pub index : ℕ
  pub at : e.next_port ≡ e.port_range_start + 2 * index
  pub inside : e.port_range_start + 2 * index ≤ e.port_range_end

next_index : ℕ → ℕ → ℕ → ℕ
next_index first last i = if ltb last (first + 2 * i + 2) then 0 else i + 1

after_port-index :
    (first last i : ℕ) → after_port first last (first + 2 * i) ≡ first + 2 * next_index first last i
unfolding after_port next_index
after_port-index first last i = ground arith

next_index_inside :
    (first last i : ℕ)
    → first + 2 * i ≤ last
    → (first + 2 * next_index first last i ≤ last)
      × ((next_index first last i ≡ i + 1)
          ⊎ (next_index first last i ≡ 0) × ((last - first) / 2 ≡ i))
unfolding next_index
next_index_inside first last i inside = ground arith

module _ (free : ℕ → Bool) (first last : ℕ) where
  -- A port that is found is free, and is one of the range.
  bind_loop_found :
      (attempts index : ℕ) {port : ℕ}
      → first + 2 * index ≤ last
      → (bind_loop free first last attempts (first + 2 * index)).0 ≡ some port
      → (free port ≡ true) × (first ≤ port) × (port ≤ last)
  unfolding bind_loop
  bind_loop_found zero index inside h = cc
  bind_loop_found (suc n) index inside h = elim (Bool-cases (free (first + 2 * index))) [
    | inl open' ↦ ground arith
    | inr taken ↦
        bind_loop_found n (next_index first last index)
          (next_index_inside first last index inside).0 (rw (taken, after_port-index) at h)
  ]

  -- The port after the loop is one of the range.
  bind_loop_next :
      (attempts index : ℕ)
      → first + 2 * index ≤ last
      → (i : ℕ) × ((bind_loop free first last attempts (first + 2 * index)).1 ≡ first + 2 * i)
        × (first + 2 * i ≤ last)
  unfolding bind_loop
  bind_loop_next zero index inside = (index, refl, inside)
  bind_loop_next (suc n) index inside =
      let step = (next_index_inside first last index inside).0 in
      elim (Bool-cases (free (first + 2 * index))) [
        | inl open' ↦ (next_index first last index, rw (open', after_port-index), step)
        | inr taken ↦
            let (i, at, within) = bind_loop_next n (next_index first last index) step in
            (i, rw (taken, after_port-index) at, within)
      ]

  -- If the loop fails from the port of some index on, every port that it came past is taken: those
  -- up to the end of the range, and then those from its start on.
  bind_loop_failed :
      (attempts index : ℕ)
      → first + 2 * index ≤ last
      → (bind_loop free first last attempts (first + 2 * index)).0 ≡ none
      → (j : ℕ) → first + 2 * j ≤ last
      → ((index ≤ j) × (j < index + attempts))
        ⊎ ((j < index) × ((last - first) / 2 + 1 + j < index + attempts))
      → free (first + 2 * j) ≡ false
  unfolding bind_loop
  bind_loop_failed zero index inside h j within reached = absurd (omega arith)
  bind_loop_failed (suc n) index inside h j within reached =
      elim (Bool-cases (free (first + 2 * index))) [
        | inl open' ↦ cc (rw open' at h)
        | inr taken ↦
            let (step, which) = next_index_inside first last index inside in
            let later =
              bind_loop_failed n (next_index first last index) step
                (rw (taken, after_port-index) at h) j within in
            elim (ℕ_discrete index j) [ yes e ↦ rw (← e) taken | no e ↦ later (omega arith) ]
      ]

-- The next port stays one of the ports of the range, whatever is bound.
pub bind_available_port-HasPort :
    (free : ℕ → Bool) (e : MediaEngine) → HasPort e → HasPort (bind_available_port free e).1
unfolding bind_available_port
bind_available_port-HasPort free e h =
    let (i, at, inside) =
      bind_loop_next free e.port_range_start e.port_range_end
        ((e.port_range_end - e.port_range_start) / 2 + 1) h.index h.inside in
    record { index = i; at = rw h.at at; inside = inside }

bind_available_port_found :
    (free : ℕ → Bool) (e : MediaEngine) {port : ℕ}
    → HasPort e
    → (bind_available_port free e).0 ≡ some port
    → (free port ≡ true) × (e.port_range_start ≤ port) × (port ≤ e.port_range_end)
unfolding bind_available_port
bind_available_port_found free e h found =
    bind_loop_found free e.port_range_start e.port_range_end
      ((e.port_range_end - e.port_range_start) / 2 + 1) h.index h.inside (rw h.at at found)

-- If any port of the range that is an even number of steps from its start is free, then a port is
-- found; the port is free and lies in the range.
pub bind_available_port_finds :
    (free : ℕ → Bool) (e : MediaEngine) (j : ℕ)
    → HasPort e
    → e.port_range_start + 2 * j ≤ e.port_range_end
    → free (e.port_range_start + 2 * j) ≡ true
    → (port : ℕ) × ((bind_available_port free e).0 ≡ some port)
      × (free port ≡ true)
      × (e.port_range_start ≤ port)
      × (port ≤ e.port_range_end)
unfolding bind_available_port
bind_available_port_finds free e j h within open' =
    elim (Option-cases (bind_available_port free e).0) [
      | inl failed ↦ cc (
        open',
        bind_loop_failed free e.port_range_start e.port_range_end
            ((e.port_range_end - e.port_range_start) / 2 + 1) h.index h.inside (rw h.at at failed) j
            within (omega arith),
      )
      | inr (port, found) ↦
          let (is_free, low, high) = bind_available_port_found free e h found in
          (port, found, is_free, low, high)
    ]
