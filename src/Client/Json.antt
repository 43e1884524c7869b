-- ===== src/Client/Json.antt =====
-- What the client uses of `encoding/json`, as a parameter: texts in, values or errors out.
use hrobot_go.Base.{List, Bytes, ℤ, Map, Option}
use hrobot_go.Errors.{Result}

-- `map[string]json.RawMessage`: the members of an object, as texts, each key once.
abbrev pub Members : Type 0
Members = Map Bytes

-- The members of an error envelope's detail that `UnmarshalJSON` reads: the code is left as text.
pub record RawDetail : Type 0 where
  pub status : ℤ
  pub code : Bytes
  pub message : Bytes

pub record Json : Type 0 where
  -- `var arr []map[string]json.RawMessage`: what `Unmarshal` leaves in it, its error dropped.
  pub unmarshal_array : Bytes → List Members
  pub unmarshal_object : Bytes → Result Members
  -- `Marshal` of a `[]json.RawMessage`; the empty text stands for nil, which is printed `null`.
  pub marshal_raws : List Bytes → Result Bytes
  pub unmarshal_string : Bytes → Result Bytes
  -- `Unmarshal` into an `APIErrorResponse`: the text of the member `error`, none where it is absent.
  pub unmarshal_envelope : Bytes → Result (Option Bytes)
  pub unmarshal_detail : Bytes → Result RawDetail

-- How a result type is read: its zero value, and `Unmarshal` into it.
pub record Decoder {ℓ} (A : Type ℓ) : Type ℓ where
  pub zero_value : A
  pub unmarshal : Bytes → Result A
