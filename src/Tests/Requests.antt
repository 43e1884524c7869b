-- ===== src/Tests/Requests.antt =====
-- Requests against a service that answers from a list: the session, and what was sent.
use hrobot_go.Base.{
  ℕ, ◌*◌, ◌≡◌, ◌<◌, refl, true, false, Bool, List, [], ◌∷◌, Bytes, codes, ◌↔◌, arith, pos, none,
  min, itoa,
}
use hrobot_go.Errors.{
  new_network_error, GoError, nil, other, Result, ok, fail, is_unauthorized_error,
}
use hrobot_go.Client.Data.{Client, Url, validate_base_url, second}
use hrobot_go.Client.World.{method_get, Reply, responded, transport_error, Env, World, never}
use hrobot_go.Client.Retry.{retry_after}
use hrobot_go.Client.Retry.Laws.{retry_after-itoa}
use hrobot_go.Client.Json.{Json, Decoder}
use hrobot_go.Client.Request.{failed, received, do_request}
use hrobot_go.Client.Request.Trace.{Ends}
use hrobot_go.Client.Request.Laws.{do_request-Ends}
use hrobot_go.Client.Request.Local.{Acceptable, validate_base_url_iff, do_request-credentials}
use hrobot_go.Client.Methods.{Session, Call}
use hrobot_go.Client.Wait.{wait_for_condition, max_polls}
use hrobot_go.Client.Wait.Laws.{Polling, Success, wait_for_condition_iff}

abbrev pub answer : ℕ → Bytes → Reply
answer status text = responded (record {
  status_code = status;
  header = λ name. [];
  body = record { content = text; read_error = nil };
})

abbrev next_reply : List Reply → Reply × List Reply
next_reply [] = (transport_error (other (codes "eof")), [])
next_reply (r ∷ rs) = (r, rs)

abbrev pub test_env : Env
test_env = record {
  State = List Reply;
  done = λ s. nil;
  request_error = λ m url. nil;
  do_http = λ r s. next_reply s;
  wait = λ d s. (nil, s);
  now = λ s. pos 0;
  parse_time = λ v. none;
}

abbrev pub world_of : List Reply → World test_env
world_of replies = record {
  outside = replies;
  rate_limit = record { limit = pos 0; remaining = pos 0; reset = never };
  exchanges = [];
  waits = [];
}

abbrev client_of : Bytes → GoError → Client
client_of username base_url_err = record {
  base_url = codes "https://robot";
  username = username;
  password = codes "secret";
  user_agent = codes "test";
  base_url_err = base_url_err;
  max_firewall_input = 1;
  max_retry_after = 30 * second;
  max_response_bytes = 64;
}

abbrev pub test_client : Client
test_client = client_of (codes "user") nil

abbrev busy : World test_env
busy = world_of (answer 503 [] ∷ answer 429 [] ∷ answer 200 (codes "{}") ∷ [])

-- Two failures are retried, and the third response is returned.
busy_get :
    (do_request test_env test_client method_get (codes "/server") [] busy).0
    ≡ received (record {
      status_code = 200;
      header = λ name. [];
      body = record { content = codes "{}"; read_error = nil };
    })
unfolding do_request
busy_get = refl

do_request-Ends_example :
    Ends test_env test_client method_get
      (codes "/server")
      []
      (do_request test_env test_client method_get (codes "/server") [] busy)
do_request-Ends_example =
    do_request-Ends test_env test_client method_get (codes "/server") [] busy refl refl

do_request-credentials_example :
    (e : GoError) × (do_request test_env (client_of [] nil) method_get (codes "/server") [] busy
      ≡ (failed e, busy))
    × (is_unauthorized_error e ≡ true)
do_request-credentials_example =
    do_request-credentials test_env (client_of [] nil) method_get (codes "/server") [] busy
      (λ h. h.0 refl)

abbrev parse_any : Bytes → Result Url
parse_any raw = ok (record {
  scheme = codes "https";
  host = raw;
  has_user = false;
  raw_query = [];
  force_query = false;
  fragment = [];
  raw_fragment = [];
})

validate_base_url_iff_example :
    (validate_base_url parse_any (codes "robot") ≡ nil)
    ↔ ((u : Url) × (parse_any (codes "robot") ≡ ok u) × Acceptable u)
validate_base_url_iff_example = validate_base_url_iff parse_any (codes "robot")

retry_after-itoa_example :
    retry_after (λ v. none) (pos 0) (itoa 7) (30 * second) ≡ min (7 * second) (30 * second)
retry_after-itoa_example = retry_after-itoa (λ v. none) (pos 0) 7 (30 * second) (ground arith)

-- A reader of JSON that knows one list of two servers.
abbrev pub test_json : Json
test_json = record {
  unmarshal_array =
      λ text. ((codes "server", codes "{}") ∷ []) ∷ ((codes "server", codes "{1}") ∷ []) ∷ [];
  unmarshal_object = λ text. ok [];
  marshal_raws = λ raws. ok (codes "[{},{1}]");
  unmarshal_string = λ text. ok text;
  unmarshal_envelope = λ text. fail (other (codes "no JSON"));
  unmarshal_detail = λ text. fail (other (codes "no detail"));
}

abbrev pub text_decoder : Decoder Bytes
text_decoder = record { zero_value = []; unmarshal = λ text. ok text }

abbrev pub test_session : Session
test_session = record { env = test_env; json = test_json; client = test_client }

abbrev always : Call test_session Bool
always w = (ok true, w)

wait_for_condition_iff_example : (wait_for_condition test_session always busy ≡ (ok tt, busy)) ↔ (
    (n : ℕ) × (d : ℕ) × (w : World test_env) × (n < max_polls)
    × Polling test_session always n d busy w
    × Success test_session always w busy)
wait_for_condition_iff_example = wait_for_condition_iff test_session always busy busy

-- A POST that gets no answer is not sent again.
abbrev silent : World test_env
silent = world_of []

abbrev no_answer : GoError
no_answer = new_network_error (codes "request failed") (other (codes "eof"))
