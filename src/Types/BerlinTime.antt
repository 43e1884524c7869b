-- ===== src/Types/BerlinTime.antt =====
-- types.go, `BerlinTime`: package time is a parameter.
pub mod Laws
use hrobot_go.Base.{
  or_else, ◌≡◌, ◌≢◌, refl, List, [], ◌∷◌, ◌++◌, Option, none, some, Bytes, codes, bytes_eq,
  if◌then◌else◌,
}
use hrobot_go.Errors.{GoError, nil, other, Result, ok, fail}
use hrobot_go.Types.Scalars.{ScalarJson}

-- Instants in the time zone of Berlin.
pub record Zone : Type 1 where
  pub Time : Type 0
  -- `time.Time{}`.
  pub no_time : Time
  -- `time.ParseInLocation(layout, s, berlinLocation)`, none for an error.
  pub parse : Bytes → Bytes → Option Time
  -- `t.In(berlinLocation).Format(layout)`.
  pub format : Bytes → Time → Bytes

abbrev pub date_time : Bytes
date_time = codes "2006-01-02 15:04:05"

abbrev pub layouts : List Bytes
layouts =
    date_time
    ∷ codes "2006-01-02T15:04:05Z07:00"
    ∷ codes "2006-01-02T15:04:05"
    ∷ codes "2006-01-02"
    ∷ []

module _ (J : ScalarJson) (Z : Zone) where
  -- The loop over the layouts, which ends at the first that reads the text.
  first_reading : List Bytes → Bytes → Option Z.Time
  first_reading [] str = none
  first_reading (layout ∷ rest) str = or_else (Z.parse layout str) (first_reading rest str)

  read_or_fail : Bytes → Option Z.Time → GoError × Z.Time
  read_or_fail str (some t) = (nil, t)
  read_or_fail str none = (other (codes "unable to parse timestamp: " ++ str), Z.no_time)

  of_json : Result Bytes → GoError × Z.Time
  of_json (ok str) = read_or_fail str (first_reading layouts str)
  of_json (fail e) = (e, Z.no_time)

  -- `UnmarshalJSON`: the error and the receiver, which is reset first.
  unfoldable pub unmarshal : Z.Time → Bytes → GoError × Z.Time
  unfolding of_json read_or_fail first_reading bytes_eq
  unmarshal bt text =
      if bytes_eq text (codes "null") then (nil, Z.no_time) else of_json (J.unmarshal_string text)

  -- `MarshalJSON`.
  unfoldable pub marshal : Z.Time → Result Bytes
  marshal bt = J.marshal_string (Z.format date_time bt)
