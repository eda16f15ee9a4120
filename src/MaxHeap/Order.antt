-- ===== src/MaxHeap/Order.antt =====
-- The order of the heap.
use exec.Base.{ℕ, ◌-◌, ◌/◌, ◌<◌, List, if◌then◌else◌, ◌==◌}
use exec.Base.Int.{ℤ, ◌≤ℤ◌}
use exec.MaxHeap.Slots.{slot}

abbrev pub parent : ℕ → ℕ
parent j = (j - 1) / 2

-- No slot of the first `n` is greater than its parent.
abbrev pub IsHeap : ℕ → List ℤ → Type 0
IsHeap n ar = (j : ℕ) → 0 < j → j < n → slot ar j ≤ℤ slot ar (parent j)

-- The slots with `x` in slot `i`.
abbrev pub put : List ℤ → ℕ → ℤ → ℕ → ℤ
put ar i x j = if i == j then x else slot ar j
