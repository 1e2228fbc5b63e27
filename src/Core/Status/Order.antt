-- ===== src/Core/Status/Order.antt =====
-- Deliveries of status webhooks in any order, and repeated ones.
use mathlib.Core.List.{Mem, Perm, Permᴰ, Memᴰ}
use mathlib.Core.Logic.{∥∥₁_elim}
use textbee_gateway.Prelude.{ℕ, ◌≤◌, ◌≡◌, ◌⊎◌, List, [], ◌∷◌, arith, refl, ◌∙◌, ap}
use textbee_gateway.Core.Types.{MessageStatus, queued, sent, delivered, failed, received}
use textbee_gateway.Core.Status.{merge_message_status, settle}

-- How far a message is in its life.
abbrev pub rank : MessageStatus → ℕ
rank queued = 0
rank sent = 1
rank failed = 2
rank received = 3
rank delivered = 4

MessageStatus-set : IsSet MessageStatus
MessageStatus-set = hlevel

-- The merged state is the current one or the incoming one, and never ranks below the current one.
pub merge_message_status-forward :
    (current incoming : MessageStatus)
    → (rank current ≤ rank (merge_message_status current incoming))
      × ((merge_message_status current incoming ≡ current)
          ⊎ (merge_message_status current incoming ≡ incoming))
unfolding merge_message_status
merge_message_status-forward current incoming = ground arith

pub merge_message_status_again :
    (current incoming : MessageStatus)
    → merge_message_status (merge_message_status current incoming) incoming
      ≡ merge_message_status current incoming
unfolding merge_message_status
merge_message_status_again current incoming = ground arith

pub merge_message_status_comm :
    (current a b : MessageStatus)
    → merge_message_status (merge_message_status current a) b
      ≡ merge_message_status (merge_message_status current b) a
unfolding merge_message_status
merge_message_status_comm queued a b = ground arith
merge_message_status_comm sent a b = ground arith
merge_message_status_comm failed a b = ground arith
merge_message_status_comm received a b = ground arith
merge_message_status_comm delivered a b = ground arith

settle-Permᴰ :
    {xs ys : List MessageStatus}
    → Permᴰ xs ys
    → (current : MessageStatus) → settle current xs ≡ settle current ys
settle-Permᴰ Permᴰ.nil current = refl
settle-Permᴰ (Permᴰ.cons {l₁ = xs} {l₂ = ys} e p) current =
    rw e (settle-Permᴰ p (merge_message_status current _))
settle-Permᴰ (Permᴰ.swap {a} {b} {l} e e') current =
    rw (← e, ← e') (ap (λ s. settle s l) (merge_message_status_comm current a b))
settle-Permᴰ (Permᴰ.trans p q) current = settle-Permᴰ p current ∙ settle-Permᴰ q current

-- The webhooks of a message may arrive in any order: the state that they leave is the same.
pub settle-perm :
    (current : MessageStatus) (xs ys : List MessageStatus)
    → Perm xs ys
    → settle current xs ≡ settle current ys
settle-perm current xs ys p = ∥∥₁_elim p (MessageStatus-set _ _) (λ d. settle-Permᴰ d current)

-- Nothing lowers the rank of a message's state, whatever arrives.
pub settle-rank :
    (current : MessageStatus) (xs : List MessageStatus) → rank current ≤ rank (settle current xs)
settle-rank current [] = omega arith
settle-rank current (x ∷ xs) = omega (
  arith,
  (merge_message_status-forward current x).0,
  settle-rank (merge_message_status current x) xs,
)

settle_delivered : (xs : List MessageStatus) → settle delivered xs ≡ delivered
unfolding merge_message_status
settle_delivered [] = refl
settle_delivered (queued ∷ xs) = settle_delivered xs
settle_delivered (sent ∷ xs) = settle_delivered xs
settle_delivered (failed ∷ xs) = settle_delivered xs
settle_delivered (received ∷ xs) = settle_delivered xs
settle_delivered (delivered ∷ xs) = settle_delivered xs

merge_message_status-delivered :
    (current : MessageStatus) → merge_message_status current delivered ≡ delivered
unfolding merge_message_status
merge_message_status-delivered current = ground arith

settle-Memᴰ :
    {xs : List MessageStatus}
    → Memᴰ delivered xs
    → (current : MessageStatus) → settle current xs ≡ delivered
settle-Memᴰ (Memᴰ.head {xs} e) current =
    rw (← e, merge_message_status-delivered) (settle_delivered xs)
settle-Memᴰ (Memᴰ.tail {x} m) current = settle-Memᴰ m (merge_message_status current x)

-- One delivery receipt anywhere in the sequence decides the state.
pub settle_of_delivered :
    (current : MessageStatus) (xs : List MessageStatus)
    → Mem delivered xs
    → settle current xs ≡ delivered
settle_of_delivered current xs m = ∥∥₁_elim m (MessageStatus-set _ _) (λ d. settle-Memᴰ d current)
