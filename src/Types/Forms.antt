-- ===== src/Types/Forms.antt =====
-- The two forms in which the service writes one value are decoded alike.
use hrobot_go.Base.{◌≡◌, ◌≢◌, [], Bytes, codes}
use hrobot_go.Errors.{GoError, ok, fail}
use hrobot_go.Types.Scalars.{ScalarJson}
use hrobot_go.Types.FlexibleId
use hrobot_go.Types.StringFloat
use hrobot_go.Types.Reset

-- Texts that decode as a string and as a number.
pub record Both (J : ScalarJson) (quoted plain s : Bytes) : Type 0 where
  pub quoted_filled : quoted ≢ []
  pub quoted_present : quoted ≢ codes "null"
  pub plain_filled : plain ≢ []
  pub plain_present : plain ≢ codes "null"
  pub reads_string : J.unmarshal_string quoted ≡ ok s
  pub failure : GoError
  pub no_string : J.unmarshal_string plain ≡ fail failure
  pub reads_number : J.unmarshal_number plain ≡ ok s
