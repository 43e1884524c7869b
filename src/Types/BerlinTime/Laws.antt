-- ===== src/Types/BerlinTime/Laws.antt =====
-- Which texts `BerlinTime` reads.
use hrobot_go.Base.{◌≡◌, ◌⊎◌, List, [], ◌∷◌, Bytes, some, none}
use hrobot_go.Types.Scalars.{ScalarJson}
use hrobot_go.Types.BerlinTime.{Zone}

module _ (J : ScalarJson) (Z : Zone) where
  -- The first of the layouts that reads the text gives the instant.
  abbrev pub IsFirst : List Bytes → Bytes → Z.Time → Type 0
  IsFirst [] str t = ⊥
  IsFirst (layout ∷ rest) str t =
      (Z.parse layout str ≡ some t) ⊎ ((Z.parse layout str ≡ none) × IsFirst rest str t)
