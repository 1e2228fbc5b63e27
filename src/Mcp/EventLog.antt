-- ===== src/Mcp/EventLog.antt =====
-- What the log of events holds after any number of events.
use mathlib.Core.List.{append-nil, append_assoc}
use textbee_gateway.Prelude.{
  ℕ, zero, suc, ◌+◌, ◌-◌, ◌≤◌, ◌≡◌, refl, sym, ap, arith, List, [], ◌∷◌, ◌++◌, foldl, length, drop,
  length-drop, ltb, ltb→lt, length-append, Bool-cases, inl, inr,
}
use textbee_gateway.Mcp.{LoggedEvent, push_event, shift, event_buffer_size}

-- The newest of a list, as many as the log has room for.
abbrev pub newest : List LoggedEvent → List LoggedEvent
newest es = drop (length es - event_buffer_size) es

abbrev pub pushed : List LoggedEvent → LoggedEvent → List LoggedEvent
pushed log e = push_event e.received_at e.provider e.event log

abbrev pub log_of : List LoggedEvent → List LoggedEvent
log_of es = foldl pushed [] es

drop-append_one :
    (n : ℕ) (es : List LoggedEvent) (e : LoggedEvent)
    → n ≤ length es
    → drop n (es ++ e ∷ []) ≡ drop n es ++ e ∷ []
drop-append_one zero es e h = refl
drop-append_one (suc n) [] e h = absurd (omega arith)
drop-append_one (suc n) (x ∷ es) e h = drop-append_one n es e (omega arith)

shift-drop : (n : ℕ) (es : List LoggedEvent) → shift (drop n es) ≡ drop (suc n) es
unfolding shift
shift-drop zero [] = refl
shift-drop zero (x ∷ es) = refl
shift-drop (suc n) [] = refl
shift-drop (suc n) (x ∷ es) = shift-drop n es

pushed-newest :
    (es : List LoggedEvent) (e : LoggedEvent) → pushed (newest es) e ≡ newest (es ++ e ∷ [])
unfolding push_event
pushed-newest es e =
    let n = length es - event_buffer_size in
    let longer = drop-append_one n es e (omega arith) in
    let size : length (newest es ++ e ∷ []) ≡ length es - n + 1 =
      omega (arith, length-append (newest es) (e ∷ []), length-drop n es) in
    let total : length (es ++ e ∷ []) ≡ length es + 1 = omega (arith, length-append es (e ∷ [])) in
    elim (Bool-cases (ltb event_buffer_size (length (newest es ++ e ∷ [])))) [
      | inl full ↦
          let more : length (es ++ e ∷ []) - event_buffer_size ≡ suc n =
            let over = ltb→lt event_buffer_size (length (newest es ++ e ∷ [])) full in
            omega arith in
          rw (full, ← longer, more) (shift-drop n (es ++ e ∷ []))
      | inr room ↦
          let same : length (es ++ e ∷ []) - event_buffer_size ≡ n = ground arith in
          rw (room, same) (sym longer)
    ]

pushed_all-newest :
    (es more : List LoggedEvent) → foldl pushed (newest es) more ≡ newest (es ++ more)
pushed_all-newest es [] = ap newest (sym (append-nil es))
pushed_all-newest es (e ∷ more) =
    rw (pushed-newest es e, pushed_all-newest (es ++ e ∷ []) more)
      (ap newest (append_assoc es (e ∷ []) more))

-- After any number of events the log is the list of all of them, cut down to the newest 200.
pub log_of-newest : (es : List LoggedEvent) → log_of es ≡ newest es
log_of-newest es = pushed_all-newest [] es
