-- ===== src/Types/StringFloat.antt =====
-- types.go, `StringFloat`: a floating-point number that is written as a string or as a number.
use hrobot_go.Base.{[], ◌∷◌, ◌++◌, Option, none, some, Bytes, codes, bytes_eq, if◌then◌else◌}
use hrobot_go.Errors.{GoError, nil, other, Result, ok, fail}
use hrobot_go.Types.Scalars.{ScalarJson, Float}

-- `unmarshal_float` is `Unmarshal` into a float64.
module _ (J : ScalarJson) (D : Float) (unmarshal_float : Bytes → Result D.F) where
  of_number : Result D.F → GoError × D.F
  of_number (ok f) = (nil, f)
  of_number (fail e) = (e, D.nought)

  of_parsed : Bytes → Option D.F → GoError × D.F
  of_parsed str (some f) = (nil, f)
  of_parsed str none = (other (codes "invalid float string: " ++ str), D.nought)

  of_string : Bytes → GoError × D.F
  of_string [] = (nil, D.nought)
  of_string (c ∷ s) = of_parsed (c ∷ s) (D.parse_float (c ∷ s))

  of_json : Bytes → Result Bytes → GoError × D.F
  of_json text (ok str) = of_string str
  of_json text (fail e) = of_number (unmarshal_float text)

  -- `UnmarshalJSON`: the error and the receiver, which is reset first.
  unfoldable pub unmarshal : D.F → Bytes → GoError × D.F
  unfolding of_json of_string of_parsed of_number bytes_eq
  unmarshal sf text =
      if bytes_eq text (codes "null")
      then (nil, D.nought)
      else of_json text (J.unmarshal_string text)

  -- `MarshalJSON`.
  unfoldable pub marshal : D.F → Result Bytes
  marshal sf = J.marshal_string (D.fixed4 sf)
