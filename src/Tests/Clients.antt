-- ===== src/Tests/Clients.antt =====
-- Examples for the REST client.
use device_handler.Prelude.{
  inl, subst, ℕ, ◌+◌, ◌^◌, ◌≡◌, ◌≢◌, refl, true, none, List, [], ◌∷◌, ◌++◌, length, Result, ok, err,
  ◌==◌, ◌||◌, Bool, false, Option, some, if◌then◌else◌,
}
use device_handler.Time.{pos, zero_time}
use device_handler.Text.{Text, codes, equal, trim_space}
use device_handler.Cache.{ChannelMapping, same_tag}
use device_handler.Api.{ChannelResponse, ApiConfig, ApiRequest, ApiResponse, Http, Client}
use device_handler.Api.Token.{ensure_token}
use device_handler.Api.Requests.{call}
use device_handler.Api.Calls.{device_list_decoder, create_deployment_channel}
use device_handler.Api.Traffic.{logged, Sends}
use device_handler.Api.Traffic.Bounds.{call-Sends}
use device_handler.Api.Reuse.{ensure_token-Reuses}
use device_handler.Config.{seconds}
use device_handler.Api.Echo.{ChannelLaws, create_deployment_channel-same_tag}
use device_handler.Ingest.State.{CreateChannelRequest}
use device_handler.Tests.{ascii}

abbrev pub api_settings : ApiConfig
api_settings = record {
  base_url = codes "http://api";
  username = codes "u";
  password = codes "p";
  service_name = codes "s";
  login_path = codes "/login";
  internal_devices_path = codes "/devices";
  internal_updated_path = codes "/updated";
  outdated_properties_path = codes "/outdated";
  request_timeout = seconds 10;
  jwt_leeway = seconds 30;
  fallback_token_ttl = seconds 600;
}

abbrev pub reply : ℕ → ApiResponse Text
reply n = record { status_code = n; status = []; body = ok [] }

-- A server that answers the first request with 401 and all others with 200, behind a transport that
-- refuses a request whose body is neither there nor to be had by GetBody.
abbrev long_enough : ℕ → Option (List ℕ) → Bool
long_enough n none = false
long_enough n (some body) = n == length body

abbrev answer : ApiRequest → ℕ → Result Text (ApiResponse Text)
answer r w =
    if (r.content_length == length r.body) || long_enough r.content_length r.get_body
    then ok (reply (if w == 0 then 401 else 200))
    else err (codes "body length")

abbrev pub http : Http ℕ Text
http = record {
  readings = λ w. (λ i. 1000 + w, w);
  send = λ r w. (answer r w, w + 1);
  body_after = λ b. [];
  join_path = λ a b. ok (a ++ b);
  check_request = λ m t. ok tt;
  encode = λ p. ok (7 ∷ []);
  decode_raw = λ b. ok b;
  decode_device_list_response = λ b. err (codes "no object");
  decode_devices = λ b. ok [];
  decode_device_update_list_response = λ b. err (codes "no object");
  decode_updates = λ b. ok [];
  decode_channel = λ b. ok (record { id = 5; tag = [] });
  decode_login = λ b. ok (record { token = codes "t"; access_token = []; expires_in = pos 3600 });
  decode_claims = λ b. err (codes "no claim");
  decode_base64 = λ t. err (codes "no base64");
  format_rfc3339 = λ t. codes "now";
}

abbrev pub client : {W : Type 0} → W → Client W
client w = record { token = []; token_expires = zero_time; world = w }

call-Sends_example :
    Sends 2 2
      (client (0, []))
      (call
        (logged http)
        api_settings
        (codes "GET")
        (codes "/devices")
        []
        none
        (device_list_decoder http api_settings)
        (client (0, []))).1
call-Sends_example =
    call-Sends http api_settings (codes "GET") (codes "/devices") [] none
      (device_list_decoder http api_settings) (client (0, []))

ensure_token-Reuses_example :
    (codes "t" ≢ [])
    × ((ensure_token http api_settings (client 1)).1.token ≡ codes "t")
    × (ensure_token http api_settings
          (record (ensure_token http api_settings (client 1)).1 { world = 9 })
        ≡ (ok (codes "t"), record (ensure_token http api_settings (client 1)).1 { world = 9 }))
unfolding ensure_token device_handler.Text.equal device_handler.Text.trim_space
    device_handler.Text.trim_right device_handler.Text.trim_left device_handler.Text.is_space
ensure_token-Reuses_example =
    ensure_token-Reuses http api_settings (client 1) (codes "t")
      (ensure_token http api_settings (client 1)).1 refl 9 refl

-- A request with a body of one byte, which the server sends back with status 401 at first.
abbrev post : ApiRequest
post = record {
  method = codes "POST";
  url = codes "http://api/devices";
  query = [];
  accept = codes "application/json";
  content_type = codes "application/json";
  authorization = codes "Bearer old";
  body = 7 ∷ [];
  content_length = 1;
  get_body = some (7 ∷ []);
}

-- A request for a channel, whose tag the server leaves out.
abbrev wanted : CreateChannelRequest
wanted = record { tag = codes "Humidity"; name = codes "Humidity"; unit = codes "%" }

abbrev IsBlank : Result Text ChannelResponse → Type 0
IsBlank (ok c) = equal (trim_space c.tag) [] ≡ true
IsBlank (err e) = Unit

channel_laws : ChannelLaws http
unfolding equal trim_space device_handler.Text.trim_right device_handler.Text.trim_left
channel_laws = record {
  replies =
      λ q r w response content body c e kept long sent success b h. inl (subst IsBlank h refl);
}

abbrev named : ChannelMapping
named = record { channel_id = 5; tag = codes "Humidity" }

-- The first attempt is sent back with status 401, and the retry succeeds.
abbrev signed_in : Client ℕ
signed_in = record { token = codes "old"; token_expires = 2 ^ 95; world = 0 }

create_deployment_channel-same_tag_example : same_tag named.tag wanted.tag ≡ true
unfolding create_deployment_channel equal trim_space device_handler.Text.trim_right
    device_handler.Text.trim_left device_handler.Text.is_space
create_deployment_channel-same_tag_example =
    create_deployment_channel-same_tag http channel_laws api_settings 7 wanted signed_in
      (create_deployment_channel http api_settings 7 wanted signed_in).1 named refl
