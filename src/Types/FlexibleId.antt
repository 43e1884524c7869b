-- ===== src/Types/FlexibleId.antt =====
-- types.go, `FlexibleID`: an ID that is a string or a number.
use hrobot_go.Base.{[], Bytes, codes, bytes_eq, ◌||◌, if◌then◌else◌}
use hrobot_go.Errors.{GoError, nil, Result, ok, fail}
use hrobot_go.Types.Scalars.{ScalarJson}

abbrev pub FlexibleId : Type 0
FlexibleId = Bytes

module _ (J : ScalarJson) where
  of_number : Result Bytes → GoError × FlexibleId
  of_number (ok n) = (nil, n)
  of_number (fail e) = (e, [])

  of_json : Bytes → Result Bytes → GoError × FlexibleId
  of_json text (ok s) = (nil, s)
  of_json text (fail e) = of_number (J.unmarshal_number text)

  -- `UnmarshalJSON`: the error and the receiver, which is reset first.
  unfoldable pub unmarshal : FlexibleId → Bytes → GoError × FlexibleId
  unfolding of_json of_number bytes_eq
  unmarshal id text =
      if bytes_eq text [] || bytes_eq text (codes "null")
      then (nil, [])
      else of_json text (J.unmarshal_string text)
