-- ===== src/Retention/Log/Steps.antt =====
-- What each step of appending does to the counters
-- (api/src/deployment_retention.rs, `append_redacted`).
use Prim.Native.Nat.{min}
use easy_deploy.Prelude.{
  subst, ◌∙◌, ◌&&◌, not, ◌==◌, ℕ, ◌+◌, ◌-◌, ◌≤◌, List, [], ◌∷◌, ◌++◌, length, is_empty,
  length-append, ◌≡◌, refl, arith, Bool-cases, inl, inr, leb, ltb,
}
use easy_deploy.Prelude.Slices.{take, drop, length-take, length-drop}
use easy_deploy.Retention.Log.{
  TaskLogBudget, BoundedLogBuffer, LogState, granted, allocate, record_drop, receive, append_head,
  append_tail, displaced, displace, append_redacted,
}

-- The bytes that a buffer stores.
abbrev pub stored : BoundedLogBuffer → ℕ
stored buffer = length buffer.head + length buffer.tail

-- A part of the work that disposes of `n` bytes.
pub record Disposes (n : ℕ) (s s' : LogState) : Type 0 where
  pub head_limit : s'.buffer.head_limit ≡ s.buffer.head_limit
  pub tail_limit : s'.buffer.tail_limit ≡ s.buffer.tail_limit
  pub max_bytes : s'.budget.max_bytes ≡ s.budget.max_bytes
  pub head_within :
      length s.buffer.head ≤ s.buffer.head_limit → length s'.buffer.head ≤ s.buffer.head_limit
  pub tail_within :
      length s.buffer.tail ≤ s.buffer.tail_limit → length s'.buffer.tail ≤ s.buffer.tail_limit
  pub budget_within :
      s.budget.stored_bytes ≤ s.budget.max_bytes → s'.budget.stored_bytes ≤ s.budget.max_bytes
  pub received : s'.buffer.received_bytes ≡ s.buffer.received_bytes
  pub budget_received : s'.budget.received_bytes ≡ s.budget.received_bytes
  pub kept :
      stored s'.buffer + s'.buffer.dropped_bytes ≡ stored s.buffer + s.buffer.dropped_bytes + n
  pub charged :
      s'.budget.stored_bytes + s'.budget.dropped_bytes
      ≡ s.budget.stored_bytes + s.budget.dropped_bytes + n
  pub exact : stored s'.buffer + s.budget.stored_bytes ≡ stored s.buffer + s'.budget.stored_bytes

granted_le : (r : ℕ) (budget : TaskLogBudget) → granted r budget ≤ r
unfolding granted
granted_le r budget = ground arith

granted_within :
    (r : ℕ) (budget : TaskLogBudget)
    → budget.stored_bytes ≤ budget.max_bytes
    → budget.stored_bytes + granted r budget ≤ budget.max_bytes
unfolding granted
granted_within r budget h = ground arith

Disposes-refl : (s : LogState) → Disposes 0 s s
Disposes-refl s = record {
  head_limit = refl;
  tail_limit = refl;
  max_bytes = refl;
  head_within = λ h. h;
  tail_within = λ h. h;
  budget_within = λ h. h;
  received = refl;
  budget_received = refl;
  kept = omega arith;
  charged = omega arith;
  exact = refl;
}

-- The head grew by `a` bytes of the `r` that it had room for, and the rest of the `r` is dropped.
head-Disposes :
    (r a : ℕ) (bytes : List ℕ) (s : LogState)
    → a ≤ r
    → r ≤ length bytes
    → r ≤ s.buffer.head_limit - length s.buffer.head
    → (s.budget.stored_bytes ≤ s.budget.max_bytes → s.budget.stored_bytes + a ≤ s.budget.max_bytes)
    → Disposes r s (
        record_drop (r - a) (record {
          buffer = record (s.buffer) { head = s.buffer.head ++ take a bytes };
          budget = record (s.budget) { stored_bytes = s.budget.stored_bytes + a };
        }))
unfolding record_drop
head-Disposes r a bytes s small enough room within =
    let grown = length-append s.buffer.head (take a bytes) in
    let taken = length-take a bytes (omega (arith, small, enough)) in
    record {
      head_limit = refl;
      tail_limit = refl;
      max_bytes = refl;
      head_within = λ h. omega (arith, grown, taken, small, room, h);
      tail_within = λ h. h;
      budget_within = within;
      received = refl;
      budget_received = refl;
      kept = omega (arith, grown, taken, small);
      charged = omega (arith, small);
      exact = omega (arith, grown, taken);
    }

-- The tail grew by `a` bytes, for which it had room.
tail-Disposes :
    (a : ℕ) (bytes : List ℕ) (s : LogState)
    → a ≤ length bytes
    → a ≤ s.buffer.tail_limit - length s.buffer.tail
    → (s.budget.stored_bytes ≤ s.budget.max_bytes → s.budget.stored_bytes + a ≤ s.budget.max_bytes)
    → Disposes a s (record {
      buffer = record (s.buffer) { tail = s.buffer.tail ++ take a bytes };
      budget = record (s.budget) { stored_bytes = s.budget.stored_bytes + a };
    })
tail-Disposes a bytes s enough room within =
    let grown = length-append s.buffer.tail (take a bytes) in
    let taken = length-take a bytes enough in
    record {
      head_limit = refl;
      tail_limit = refl;
      max_bytes = refl;
      head_within = λ h. h;
      tail_within = λ h. omega (arith, grown, taken, room, h);
      budget_within = within;
      received = refl;
      budget_received = refl;
      kept = omega (arith, grown, taken);
      charged = omega arith;
      exact = omega (arith, grown, taken);
    }

length-displaced : (tail remaining : List ℕ) → length (displaced tail remaining) ≡ length tail
unfolding displaced
length-displaced tail remaining = elim (Bool-cases (leb (length tail) (length remaining))) [
  | inl e ↦ rw e (ground (arith, length-drop (length remaining - length tail) remaining))
  | inr e ↦ rw e (
      ground (
        arith,
        length-append (drop (length remaining) tail) remaining,
        length-drop (length remaining) tail,
      ))
]

add_zero : (n : ℕ) → n + 0 ≡ n
add_zero n = omega arith

record_drop_none : (n : ℕ) (s : LogState) → n ≡ 0 → record_drop n s ≡ s
unfolding record_drop
record_drop_none n s h =
    rw (h, add_zero s.buffer.dropped_bytes, add_zero s.budget.dropped_bytes) refl

-- What a step does with the bytes that it is given, and how many it leaves.
pub record Takes (bytes : List ℕ) (s : LogState) (r : List ℕ × LogState) : Type 0 where
  pub taken : ℕ
  pub left : taken + length r.0 ≡ length bytes
  pub disposes : Disposes taken s r.1

append_head-Takes : (bytes : List ℕ) (s : LogState) → Takes bytes s (append_head bytes s)
unfolding append_head allocate
append_head-Takes bytes s =
    let requested = min (s.buffer.head_limit - length s.buffer.head) (length bytes) in
    let a = granted requested s.budget in
    let small = granted_le requested s.budget in
    let done =
      head-Disposes requested a bytes s small (ground arith) (ground arith)
        (granted_within requested s.budget) in
    elim (Bool-cases (ltb (length s.buffer.head) s.buffer.head_limit)) [
      | inr full ↦ rw full (record { taken = 0; left = omega arith; disposes = Disposes-refl s })
      | inl room ↦ elim (Bool-cases (ltb a requested)) [
        | inl short ↦
            rw (room, short)
              (record {
                taken = requested;
                left = ground (arith, length-drop requested bytes);
                disposes = done;
              })
        | inr all ↦
            rw (room, all)
              (record {
                taken = requested;
                left = ground (arith, length-drop requested bytes);
                disposes =
                    subst (λ s'. Disposes requested s s')
                      (record_drop_none (requested - a) _ (ground (arith, small))) done;
              })
      ]
    ]

append_tail-Takes : (bytes : List ℕ) (s : LogState) → Takes bytes s (append_tail bytes s)
unfolding append_tail allocate
append_tail-Takes bytes s =
    let requested = min (s.buffer.tail_limit - length s.buffer.tail) (length bytes) in
    let a = granted requested s.budget in
    let small = granted_le requested s.budget in
    let done =
      tail-Disposes a bytes s (ground (arith, small)) (ground (arith, small))
        (granted_within requested s.budget) in
    elim (Bool-cases (ltb (length s.buffer.tail) s.buffer.tail_limit && not (is_empty bytes))) [
      | inr full ↦ rw full (record { taken = 0; left = omega arith; disposes = Disposes-refl s })
      | inl room ↦
          rw room (record {
            taken = a;
            left = ground (arith, small, length-drop a bytes);
            disposes = done;
          })
    ]

dropped-Disposes :
    (n : ℕ) (tail : List ℕ) (s : LogState)
    → length tail ≡ length s.buffer.tail
    → Disposes n s
        (record_drop n (record { buffer = record (s.buffer) { tail = tail }; budget = s.budget }))
unfolding record_drop
dropped-Disposes n tail s same = record {
  head_limit = refl;
  tail_limit = refl;
  max_bytes = refl;
  head_within = λ h. h;
  tail_within = λ h. omega (arith, same, h);
  budget_within = λ h. h;
  received = refl;
  budget_received = refl;
  kept = omega (arith, same);
  charged = omega arith;
  exact = omega (arith, same);
}

displace-Disposes : (bytes : List ℕ) (s : LogState) → Disposes (length bytes) s (displace bytes s)
unfolding displace
displace-Disposes [] s = Disposes-refl s
displace-Disposes (b ∷ bs) s = elim (Bool-cases (length s.buffer.tail == 0)) [
  | inl e ↦ rw e (dropped-Disposes (length (b ∷ bs)) s.buffer.tail s refl)
  | inr e ↦ rw e (
      dropped-Disposes (length (b ∷ bs)) (displaced s.buffer.tail (b ∷ bs)) s
        (length-displaced s.buffer.tail (b ∷ bs)))
]

Disposes-trans :
    (m n : ℕ) (a b c : LogState) → Disposes m a b → Disposes n b c → Disposes (m + n) a c
Disposes-trans m n a b c p q = record {
  head_limit = q.head_limit ∙ p.head_limit;
  tail_limit = q.tail_limit ∙ p.tail_limit;
  max_bytes = q.max_bytes ∙ p.max_bytes;
  head_within = λ h.
      let first = p.head_within h in
      let limit = p.head_limit in
      let second = q.head_within (omega (arith, first, limit)) in omega (arith, second, limit);
  tail_within = λ h.
      let first = p.tail_within h in
      let limit = p.tail_limit in
      let second = q.tail_within (omega (arith, first, limit)) in omega (arith, second, limit);
  budget_within = λ h.
      let first = p.budget_within h in
      let limit = p.max_bytes in
      let second = q.budget_within (omega (arith, first, limit)) in omega (arith, second, limit);
  received = q.received ∙ p.received;
  budget_received = q.budget_received ∙ p.budget_received;
  kept = omega (arith, p.kept, q.kept);
  charged = omega (arith, p.charged, q.charged);
  exact = omega (arith, p.exact, q.exact);
}

-- The three steps together dispose of every byte.
pub append_redacted-Disposes :
    (bytes : List ℕ) (s : LogState)
    → Disposes (length bytes) (receive (length bytes) s) (append_redacted bytes s)
unfolding append_redacted receive
append_redacted-Disposes [] s = record {
  head_limit = refl;
  tail_limit = refl;
  max_bytes = refl;
  head_within = λ h. h;
  tail_within = λ h. h;
  budget_within = λ h. h;
  received = omega arith;
  budget_received = omega arith;
  kept = omega arith;
  charged = omega arith;
  exact = refl;
}
append_redacted-Disposes (b ∷ bs) s =
    let bytes = b ∷ bs in
    let start = receive (length bytes) s in
    let first = append_head bytes start in
    let head = append_head-Takes bytes start in
    let second = append_tail first.0 first.1 in
    let tail = append_tail-Takes first.0 first.1 in
    let all : head.taken + (tail.taken + length second.0) ≡ length bytes =
      omega (arith, head.left, tail.left) in
    subst (λ n. Disposes n start (displace second.0 second.1)) all
      (Disposes-trans head.taken (tail.taken + length second.0) start first.1 _ head.disposes (
        Disposes-trans tail.taken (length second.0) first.1 second.1 _ tail.disposes
          (displace-Disposes second.0 second.1)))
