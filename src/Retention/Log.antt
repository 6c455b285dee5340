-- ===== src/Retention/Log.antt =====
-- The bounded log of a step and the budget of its task (api/src/deployment_retention.rs,
-- `BoundedLogBuffer` and `TaskLogBudget`). The bytes are those that the redactor lets through.
pub mod Steps
pub mod Conservation
use Prim.Native.Nat.{min}
use easy_deploy.Prelude.{
  ℕ, ◌+◌, ◌-◌, List, [], ◌++◌, Bool, not, ◌&&◌, length, is_empty, if◌then◌else◌, ◌==◌, ltb, leb,
}
use easy_deploy.Prelude.Slices.{take, drop}

pub record TaskLogBudget : Type 0 where
  pub max_bytes : ℕ
  pub stored_bytes : ℕ
  pub received_bytes : ℕ
  pub dropped_bytes : ℕ

pub record BoundedLogBuffer : Type 0 where
  pub head_limit : ℕ
  pub tail_limit : ℕ
  pub head : List ℕ
  pub tail : List ℕ
  pub received_bytes : ℕ
  pub dropped_bytes : ℕ

-- A buffer with the budget that it is given.
pub record LogState : Type 0 where
  pub buffer : BoundedLogBuffer
  pub budget : TaskLogBudget

-- What `allocate` grants; it adds the same to `stored_bytes`.
unfoldable pub granted : ℕ → TaskLogBudget → ℕ
granted requested budget = min requested (budget.max_bytes - budget.stored_bytes)

unfoldable pub allocate : ℕ → TaskLogBudget → TaskLogBudget
allocate requested budget = record budget {
  stored_bytes = budget.stored_bytes + granted requested budget;
}

unfoldable pub record_drop : ℕ → LogState → LogState
record_drop n s = record {
  buffer = record (s.buffer) { dropped_bytes = s.buffer.dropped_bytes + n };
  budget = record (s.budget) { dropped_bytes = s.budget.dropped_bytes + n };
}

-- Both counters of received bytes.
unfoldable pub receive : ℕ → LogState → LogState
receive n s = record {
  buffer = record (s.buffer) { received_bytes = s.buffer.received_bytes + n };
  budget = record (s.budget) { received_bytes = s.budget.received_bytes + n };
}

-- The head takes what it has room for and the budget grants; what is not granted is dropped.
unfoldable pub append_head : List ℕ → LogState → List ℕ × LogState
append_head bytes s =
    let requested = min (s.buffer.head_limit - length s.buffer.head) (length bytes) in
    let allocated = granted requested s.budget in
    let filled : LogState = record {
      buffer = record (s.buffer) { head = s.buffer.head ++ take allocated bytes };
      budget = allocate requested s.budget;
    } in
    if ltb (length s.buffer.head) s.buffer.head_limit
    then (
      drop requested bytes,
      if ltb allocated requested then record_drop (requested - allocated) filled else filled,
    )
    else (bytes, s)

-- The tail takes what it has room for and the budget grants.
unfoldable pub append_tail : List ℕ → LogState → List ℕ × LogState
append_tail remaining s =
    let requested = min (s.buffer.tail_limit - length s.buffer.tail) (length remaining) in
    let allocated = granted requested s.budget in
    if ltb (length s.buffer.tail) s.buffer.tail_limit && not (is_empty remaining)
    then (
      drop allocated remaining,
      record {
        buffer = record (s.buffer) { tail = s.buffer.tail ++ take allocated remaining };
        budget = allocate requested s.budget;
      },
    )
    else (remaining, s)

-- The tail after later bytes displaced its oldest.
unfoldable pub displaced : List ℕ → List ℕ → List ℕ
displaced tail remaining =
    if leb (length tail) (length remaining)
    then drop (length remaining - length tail) remaining
    else drop (length remaining) tail ++ remaining

unfoldable pub displace : List ℕ → LogState → LogState
displace remaining s =
    if is_empty remaining
    then s
    else if length s.buffer.tail == 0
    then record_drop (length remaining) s
    else record_drop (length remaining) (record {
      buffer = record (s.buffer) { tail = displaced s.buffer.tail remaining };
      budget = s.budget;
    })

unfoldable pub append_redacted : List ℕ → LogState → LogState
append_redacted bytes s =
    let first = append_head bytes (receive (length bytes) s) in
    let second = append_tail first.0 first.1 in
    if is_empty bytes then s else displace second.0 second.1
