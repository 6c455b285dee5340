-- ===== src/Retention/Examples.antt =====
-- A log of four bytes at the head and three at the tail, in a task that may store six.
use easy_deploy.Prelude.{ℕ, ◌+◌, List, [], ◌∷◌, ◌++◌, ◌≡◌, refl, arith, length}
use easy_deploy.Prelude.Slices.{drop}
use easy_deploy.Retention.Log.{LogState, displaced, append_redacted}
use easy_deploy.Retention.Log.Steps.{stored}
use easy_deploy.Retention.Log.Conservation.{
  IsBalanced, append_redacted-IsBalanced, append_redacted-stored, displaced-drop,
}

abbrev log : LogState
log = record {
  buffer = record {
    head_limit = 4;
    tail_limit = 3;
    head = 1 ∷ 2 ∷ 3 ∷ [];
    tail = [];
    received_bytes = 3;
    dropped_bytes = 0;
  };
  budget = record { max_bytes = 6; stored_bytes = 3; received_bytes = 3; dropped_bytes = 0 };
}

abbrev chunk : List ℕ
chunk = 4 ∷ 5 ∷ 6 ∷ 7 ∷ 8 ∷ []

log-IsBalanced : IsBalanced log
log-IsBalanced = record {
  head_within = omega arith;
  tail_within = omega arith;
  budget_within = omega arith;
  kept = refl;
  charged = refl;
}

append_redacted-IsBalanced_example : IsBalanced (append_redacted chunk log)
append_redacted-IsBalanced_example = append_redacted-IsBalanced chunk log log-IsBalanced

append_redacted-stored_example :
    (stored (append_redacted chunk log).buffer + 3
      ≡ stored log.buffer + (append_redacted chunk log).budget.stored_bytes)
    × ((append_redacted chunk log).buffer.received_bytes ≡ 3 + length chunk)
    × ((append_redacted chunk log).budget.received_bytes ≡ 3 + length chunk)
append_redacted-stored_example = append_redacted-stored chunk log

displaced-drop_example :
    displaced (1 ∷ 2 ∷ 3 ∷ []) (4 ∷ 5 ∷ []) ≡ drop 2 ((1 ∷ 2 ∷ 3 ∷ []) ++ (4 ∷ 5 ∷ []))
displaced-drop_example = displaced-drop (1 ∷ 2 ∷ 3 ∷ []) (4 ∷ 5 ∷ [])
