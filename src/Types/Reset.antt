-- ===== src/Types/Reset.antt =====
-- types.go, `Reset`: its types of reset are one string or an array of strings.
use hrobot_go.Base.{List, [], ◌∷◌, Bytes, codes, ℤ}
use hrobot_go.Errors.{GoError, nil, other, Result, ok, fail}
use hrobot_go.Services.Ip.{NetIp}
use hrobot_go.Types.Scalars.{ScalarJson}

pub record Reset : Type 0 where
  pub server_ip : NetIp
  pub server_ipv6_net : Bytes
  pub server_number : ℤ
  pub reset_types : List Bytes
  pub operating_status : Bytes

-- `json.Unmarshal(data, &aux)`: the error, the receiver with the members that stand in the object,
-- and the text of the member `type`, which is empty where there is none.
pub record Decoded : Type 0 where
  pub failure : GoError
  pub receiver : Reset
  pub raw_type : Bytes

module _ (J : ScalarJson) (unmarshal_members : Reset → Bytes → Decoded) where
  one_type : Reset → Result Bytes → GoError × Reset
  one_type r (ok t) = (nil, record r { reset_types = t ∷ [] })
  one_type r (fail e) = (other (codes "type field must be either string or array"), r)

  types_of : Reset → Bytes → Result (List Bytes) → GoError × Reset
  types_of r raw (ok ts) = (nil, record r { reset_types = ts })
  types_of r raw (fail e) = one_type r (J.unmarshal_string raw)

  -- `if err != nil { return err }`.
  behind : Decoded → GoError → GoError × Reset
  behind aux nil = types_of aux.receiver aux.raw_type (J.unmarshal_strings aux.raw_type)
  behind aux e = (e, aux.receiver)

  -- `UnmarshalJSON`: the error and the receiver, which is not reset first.
  unfoldable pub unmarshal : Reset → Bytes → GoError × Reset
  unfolding behind types_of one_type
  unmarshal r text = let aux = unmarshal_members r text in behind aux aux.failure
