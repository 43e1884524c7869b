-- ===== src/Tests/Responses.antt =====
-- Responses: a body that is read, decoded or refused, and envelopes.
use hrobot_go.Base.{◌≡◌, ◌≤◌, ◌<◌, refl, [], ◌∷◌, codes, ◌↔◌, arith, length}
use hrobot_go.Errors.{nil, ok}
use hrobot_go.Client.World.{Body, Response}
use hrobot_go.Client.Response.{read_body_limited, unwrap_response, handle_response}
use hrobot_go.Client.Response.Laws.{IsWhole, read_body_limited_iff}
use hrobot_go.Client.Response.Unwrap.{unwrap_response-wrapped}
use hrobot_go.Client.Response.Success.{Decodes, handle_response_iff}
use hrobot_go.Tests.Requests.{test_json, text_decoder}

abbrev small : Body
small = record { content = codes "{}"; read_error = nil }

read_body_limited_iff_example :
    (read_body_limited 2 small ≡ ok (codes "{}")) ↔ IsWhole 2 small (codes "{}")
read_body_limited_iff_example =
    read_body_limited_iff 2 small (codes "{}") (ground arith) (ground arith)

unwrap_response-wrapped_example :
    unwrap_response test_json (b'[' ∷ codes "{..}]")
    ≡ test_json.marshal_raws (codes "{}" ∷ codes "{1}" ∷ [])
unwrap_response-wrapped_example =
    unwrap_response-wrapped test_json (codes "{..}]") (codes "server") (codes "{}")
      (codes "{1}" ∷ []) (refl, (refl, tt)) refl

abbrev response : Response
response = record { status_code = 200; header = λ name. []; body = small }

handle_response_iff_example :
    (handle_response test_json text_decoder 64 response ≡ ok (codes "{}")) ↔ (
      (200 ≤ 200)
      × (200 < 300)
      × (length (codes "{}") ≤ 64)
      × (nil ≡ nil)
      × Decodes test_json text_decoder 200 (codes "{}") (codes "{}"))
handle_response_iff_example =
    handle_response_iff test_json text_decoder 64 response (codes "{}") (ground arith)
      (ground arith)
