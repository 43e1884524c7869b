-- ===== src/Services/Vswitch/Asks.antt =====
-- What `AddServers` and `RemoveServers` ask of the service.
use hrobot_go.Base.{
  ◌≡◌, List, [], ◌∷◌, Bytes, codes, All, join, map, ℤ, itoa_int, arith, some, false,
}
use hrobot_go.Url.Escape.{IsByte}
use hrobot_go.Url.Path.{read_path, read_path-join, self-Reads, itoa_int-Reads}
use hrobot_go.Url.Query.{parse_query, parse_query-join, AllEncode, pair-Encodes}
use hrobot_go.Client.World.{Method, method_post, method_delete, World}
use hrobot_go.Client.Methods
use hrobot_go.Client.Methods.{Session, no_value}
use hrobot_go.Client.Sends.{Ask, Asks, New, perform-New}
use hrobot_go.Services.Vswitch.{servers_path, form_parts, servers_form, add_servers, remove_servers}

-- The fields of the form: the servers, each under the same key.
abbrev pub server_fields : List Bytes → List (Bytes × Bytes)
server_fields servers = map (λ s. (codes "server[]", s)) servers

form_parts-AllEncode :
    (servers : List Bytes)
    → All (All IsByte) servers
    → AllEncode (form_parts servers) (server_fields servers)
unfolding form_parts
form_parts-AllEncode [] h = tt
form_parts-AllEncode (s ∷ servers) (hs, h) =
    (pair-Encodes (codes "server[]") s (ground arith) hs, form_parts-AllEncode servers h)

-- A server reads back the servers in their order, whatever bytes they are made of.
pub parse_query-servers_form :
    (servers : List Bytes)
    → All (All IsByte) servers
    → parse_query (servers_form servers) ≡ record { pairs = server_fields servers; failed = false }
unfolding servers_form
parse_query-servers_form servers h =
    parse_query-join (form_parts servers) (server_fields servers) (form_parts-AllEncode servers h)

pub servers_path-Reads :
    (id : ℤ)
    → read_path (servers_path id) ≡ some (codes "vswitch" ∷ itoa_int id ∷ codes "server" ∷ [])
unfolding join
servers_path-Reads id =
    read_path-join (codes "vswitch" ∷ itoa_int id ∷ codes "server" ∷ [])
      (codes "vswitch" ∷ itoa_int id ∷ codes "server" ∷ [])
      (
        self-Reads (codes "vswitch") (ground arith),
        (itoa_int-Reads id, (self-Reads (codes "server") (ground arith), tt)),
      )

-- The request of a method with a list of servers.
abbrev pub servers_asked : Method → ℤ → List Bytes → Ask
servers_asked m id servers = record {
  method = m;
  segments = codes "vswitch" ∷ itoa_int id ∷ codes "server" ∷ [];
  form = server_fields servers;
}

module _ (S : Session) (id : ℤ) (servers : List Bytes) (w : World S.env) where
  -- From any world, both operations ask for exactly the servers that they are given, in their order
  -- and with literal brackets in the key, whatever bytes the servers are made of.
  pub servers-asked :
      All (All IsByte) servers
      → New S (Asks S (servers_asked method_post id servers)) w (add_servers S id servers w).1
        × New S
            (Asks S (servers_asked method_delete id servers))
            w
            (remove_servers S id servers w).1
  unfolding add_servers remove_servers Methods.post_raw Methods.delete_raw
  servers-asked h = (
    perform-New S no_value method_post _ _ _ _ w (servers_path-Reads id)
        (parse_query-servers_form servers h),
    perform-New S no_value method_delete _ _ _ _ w (servers_path-Reads id)
        (parse_query-servers_form servers h),
  )
