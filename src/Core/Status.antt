-- ===== src/Core/Status.antt =====
-- `mergeMessageStatus` of src/core/session-manager.ts.
pub mod Order
use textbee_gateway.Prelude.{ℕ, Bool, true, false, List, foldl, ltb, ◌||◌, if◌then◌else◌}
use textbee_gateway.Core.Types.{MessageStatus, queued, sent, delivered, failed, received}

-- `===` on states
unfoldable pub same : MessageStatus → MessageStatus → Bool
same queued queued = true
same sent sent = true
same delivered delivered = true
same failed failed = true
same received received = true
same _ _ = false

-- The table `progress`; a state that it lacks reads `undefined`, and no comparison with
-- `undefined` holds.
ahead : MessageStatus → MessageStatus → Bool
ahead sent queued = ltb 0 1
ahead queued sent = ltb 1 0
ahead _ _ = false

unfoldable pub merge_message_status : MessageStatus → MessageStatus → MessageStatus
unfolding same ahead
merge_message_status current incoming =
    if same current incoming
    then current
    else if same incoming delivered
    then delivered
    else if same current delivered || same current received
    then current
    else if same current failed
    then current
    else if same incoming failed
    then failed
    else if ahead incoming current
    then incoming
    else current

-- The state of a message after the events of a sequence of webhooks.
abbrev pub settle : MessageStatus → List MessageStatus → MessageStatus
settle = foldl merge_message_status
