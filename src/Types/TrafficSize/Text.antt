-- ===== src/Types/TrafficSize/Text.antt =====
-- The texts of traffic quotas: sizes with a unit, and plain numbers.
use hrobot_go.Base.{ℕ, false, [], ◌∷◌, Bytes}
use hrobot_go.Types.TrafficSize.{TrafficSize}

-- A size that was read from a text.
abbrev pub sized : ℕ → Bytes → TrafficSize
sized n str = record { unlimited = false; bytes = n; raw = str }

-- No text of a size is the word "unlimited".
abbrev Head : (ℕ → Type 0) → Bytes → Type 0
Head P [] = ⊥
Head P (c ∷ s) = P c
