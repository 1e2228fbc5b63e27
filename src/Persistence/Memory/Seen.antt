-- ===== src/Persistence/Memory/Seen.antt =====
-- Deliveries that are recognised as seen.
use textbee_gateway.Prelude.{
  ◌≡◌, refl, arith, String, List, [], ◌∷◌, true, false, not, ◌===◌, if◌then◌else◌, ===_iff,
  ===_refl,
}
use textbee_gateway.JsMap.{has}
use textbee_gateway.JsMap.Laws.{get-set}
use textbee_gateway.Persistence.Memory.{MemoryStore, check_and_mark_seen, seen_key}

module _ {Config : Type 0} where
  -- One check: whether the key was new, and what is seen after it.
  pub check_and_mark_seen-has :
      (n k key : String) (s : MemoryStore Config)
      → has key (check_and_mark_seen n k s).1.seen_keys
        ≡ (if seen_key n k === key then true else has key s.seen_keys)
  unfolding check_and_mark_seen
  check_and_mark_seen-has n k key s =
      ground (arith, get-set (seen_key n k) key tt s.seen_keys, ===_iff (seen_key n k) key)

  pub check_and_mark_seen-new :
      (n k : String) (s : MemoryStore Config)
      → (check_and_mark_seen n k s).0 ≡ not (has (seen_key n k) s.seen_keys)
  unfolding check_and_mark_seen
  check_and_mark_seen-new n k s = ground arith

  abbrev mark_all : List (String × String) → MemoryStore Config → MemoryStore Config
  mark_all [] s = s
  mark_all ((n, k) ∷ marks) s = mark_all marks (check_and_mark_seen n k s).1

  mark_all-has :
      (marks : List (String × String)) (key : String) (s : MemoryStore Config)
      → has key s.seen_keys ≡ true
      → has key (mark_all marks s).seen_keys ≡ true
  mark_all-has [] key s h = h
  mark_all-has ((n, k) ∷ marks) key s h =
      mark_all-has marks key (check_and_mark_seen n k s).1
        (ground (arith, check_and_mark_seen-has n k key s))

  -- A key that was checked once is never new again, whatever is checked in between; and a check of
  -- one key leaves the answer for a key with another full name as it was.
  check_and_mark_seen_once :
      (n k n' k' : String) (marks : List (String × String)) (s : MemoryStore Config)
      → ((check_and_mark_seen n k (mark_all marks (check_and_mark_seen n k s).1)).0 ≡ false)
        × ((check_and_mark_seen n' k' (check_and_mark_seen n k s).1).0
            ≡ (if seen_key n k === seen_key n' k' then false else (check_and_mark_seen n' k' s).0))
  check_and_mark_seen_once n k n' k' marks s =
      let s1 = (check_and_mark_seen n k s).1 in
      let seen : has (seen_key n k) s1.seen_keys ≡ true =
        rw (check_and_mark_seen-has, ===_refl) refl in
      (
        rw (check_and_mark_seen-new, mark_all-has marks (seen_key n k) s1 seen) refl,
        ground (
          arith,
          check_and_mark_seen-new n' k' s1,
          check_and_mark_seen-new n' k' s,
          check_and_mark_seen-has n k (seen_key n' k') s,
        ),
      )
