-- ===== src/Tests/Forms.antt =====
-- Traffic queries and lists of servers, and the checks of the test server.
use hrobot_go.Base.{true, [], ◌∷◌, codes, arith}
use hrobot_go.Client.World.{World, method_post}
use hrobot_go.Errors.{ok}
use hrobot_go.Client.Json.{Decoder}
use hrobot_go.Client.Sends.{Asks, New}
use hrobot_go.Services.Traffic
use hrobot_go.Services.Traffic.{TrafficGetParams, RawTraffic, traffic_body}
use hrobot_go.Services.Traffic.Asks.{traffic_fields, get-traffic_asked}
use hrobot_go.Tests.Requests.{test_env, test_session, text_decoder, world_of, answer}

abbrev params : TrafficGetParams
params = record {
  type = codes "day";
  from = codes "2024-01-01T00";
  to = codes "2024-01-01T23";
  ip = codes "1.2.3.4";
  ips = codes "5.6&7" ∷ [];
  subnets = codes "2a01:4f8::" ∷ [];
  single_values = true;
}

abbrev raw_decoder : Decoder RawTraffic
raw_decoder = record {
  zero_value = record { type = []; from = []; to = []; payload = [] };
  unmarshal = λ text. ok (record { type = []; from = []; to = []; payload = text });
}

abbrev before : World test_env
before = world_of (answer 200 [] ∷ [])

get-traffic_asked_example :
    New test_session
      (Asks test_session (record {
        method = method_post;
        segments = codes "traffic" ∷ [];
        form = traffic_fields params;
      }))
      before
      (Traffic.get test_session text_decoder text_decoder raw_decoder params before).1
get-traffic_asked_example =
    get-traffic_asked test_session text_decoder text_decoder raw_decoder params before
      (ground arith, ground arith, ground arith, ground arith, ground arith)
