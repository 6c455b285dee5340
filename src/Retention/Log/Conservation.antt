-- ===== src/Retention/Log/Conservation.antt =====
-- No byte is lost from the books of a log, and no bound is passed
-- (api/src/deployment_retention.rs, `append_redacted`).
use easy_deploy.Prelude.{
  sym, ℕ, ◌+◌, ◌≤◌, List, ◌++◌, length, ◌≡◌, arith, Bool-cases, inl, inr, leb,
}
use easy_deploy.Prelude.Slices.{drop, drop-append_past, drop-append_within}
use easy_deploy.Retention.Log.{LogState, receive, displaced, append_redacted}
use easy_deploy.Retention.Log.Steps.{stored, append_redacted-Disposes}

-- Within its limits, and each received byte is stored or dropped.
pub record IsBalanced (s : LogState) : Type 0 where
  pub head_within : length s.buffer.head ≤ s.buffer.head_limit
  pub tail_within : length s.buffer.tail ≤ s.buffer.tail_limit
  pub budget_within : s.budget.stored_bytes ≤ s.budget.max_bytes
  pub kept : stored s.buffer + s.buffer.dropped_bytes ≡ s.buffer.received_bytes
  pub charged : s.budget.stored_bytes + s.budget.dropped_bytes ≡ s.budget.received_bytes

-- Appending bytes keeps the head and the tail within their limits and the budget within its maximum,
-- and keeps the books: each byte received is either stored or counted as dropped, by the buffer and
-- by the budget.
pub append_redacted-IsBalanced :
    (bytes : List ℕ) (s : LogState) → IsBalanced s → IsBalanced (append_redacted bytes s)
unfolding receive
append_redacted-IsBalanced bytes s v =
    let d = append_redacted-Disposes bytes s in
    let head = d.head_within v.head_within in
    let tail = d.tail_within v.tail_within in
    let budget = d.budget_within v.budget_within in
    record {
      head_within = omega (arith, head, d.head_limit);
      tail_within = omega (arith, tail, d.tail_limit);
      budget_within = omega (arith, budget, d.max_bytes);
      kept = omega (arith, d.kept, d.received, v.kept);
      charged = omega (arith, d.charged, d.budget_received, v.charged);
    }

-- The budget of a task is charged with exactly the bytes by which the buffer grows, and both count
-- exactly the bytes appended as received.
pub append_redacted-stored :
    (bytes : List ℕ) (s : LogState)
    → (stored (append_redacted bytes s).buffer + s.budget.stored_bytes
        ≡ stored s.buffer + (append_redacted bytes s).budget.stored_bytes)
      × ((append_redacted bytes s).buffer.received_bytes ≡ s.buffer.received_bytes + length bytes)
      × ((append_redacted bytes s).budget.received_bytes ≡ s.budget.received_bytes + length bytes)
unfolding receive
append_redacted-stored bytes s =
    let d = append_redacted-Disposes bytes s in (d.exact, d.received, d.budget_received)

-- Later bytes displace the oldest of the tail: it holds the last bytes of what it held and of what
-- came, as many as before.
pub displaced-drop :
    (tail remaining : List ℕ)
    → displaced tail remaining ≡ drop (length remaining) (tail ++ remaining)
unfolding displaced
displaced-drop tail remaining = elim (Bool-cases (leb (length tail) (length remaining))) [
  | inl e ↦ rw e (sym (drop-append_past (length remaining) tail remaining (ground arith)))
  | inr e ↦ rw e (sym (drop-append_within (length remaining) tail remaining (ground arith)))
]
