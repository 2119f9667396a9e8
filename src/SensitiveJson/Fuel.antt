-- ===== src/SensitiveJson/Fuel.antt =====
-- The parser terminates: each loop ends within one round for each byte of its input.
use himmelcloak.Prelude.{ℕ, ◌≤◌, Text, length, ◌≡◌}
use himmelcloak.SensitiveJson.Advance.{Reader}

-- Two readers say the same of inputs up to a length.
abbrev Agree : ℕ → Reader → Reader → Type 0
Agree k read read' = (s : Text) → length s ≤ k → read s ≡ read' s
