-- ===== src/Api/Calls.antt =====
-- The four calls of internal/api/client.go, and the client as the collaborator of the service and
-- of the syncer.
use device_handler.Prelude.{ℕ, none, some, List, [], ◌∷◌, ◌++◌, Result, ok, err, if◌then◌else◌}
use device_handler.Time.{Time, pos, is_zero}
use device_handler.Text.{Text, codes, equal, trim_space}
use device_handler.Dict.{Dict}
use device_handler.Cache.{DeviceRecord, ChannelMapping}
use device_handler.Cache.Wire.{DeviceUpdate}
use device_handler.Action.{Action, pure, ◌>>=◌}
use device_handler.Ingest.State.{Remote, CreateChannelRequest}
use device_handler.Syncer.{SyncClient}
use device_handler.Comet.{format_int}
use device_handler.Api.{
  ApiConfig, channel, DeviceListResponse, DeviceUpdateListResponse, ChannelResponse, Http, Client,
  ApiError,
}
use device_handler.Api.Requests.{Decoder, call}

-- deviceListResponse.devices and deviceUpdateListResponse.updates.
abbrev pub or_items : {A : Type 0} → List A → List A → List A
or_items (x ∷ xs) items = x ∷ xs
or_items [] items = items

abbrev pub devices_of : DeviceListResponse → List DeviceRecord
devices_of r = or_items r.devices r.items

abbrev pub updates_of : DeviceUpdateListResponse → List DeviceUpdate
updates_of r = or_items r.updates r.items

-- What decodeRawList decodes, as the response that then holds it.
abbrev pub device_list : {X : Type 0} → Result X (List DeviceRecord) → Result X DeviceListResponse
device_list (ok rs) = ok (record { items = rs; devices = [] })
device_list (err x) = err x

abbrev pub update_list :
    {X : Type 0} → Result X (List DeviceUpdate) → Result X DeviceUpdateListResponse
update_list (ok xs) = ok (record { items = xs; updates = [] })
update_list (err x) = err x

-- The mapping that CreateDeploymentChannel returns for a request.
unfoldable pub mapping_of : CreateChannelRequest → ChannelResponse → ChannelMapping
mapping_of input r = record {
  channel_id = r.id;
  tag = if equal (trim_space r.tag) [] then input.tag else r.tag;
}

-- "/device-deployments/%d/channels/"
abbrev pub channels_path : ℕ → Text
channels_path deployment_id =
    codes "/device-deployments/" ++ (format_int (pos deployment_id) ++ codes "/channels/")

module _ {W X : Type 0} (http : Http W X) (cfg : ApiConfig) where
  abbrev pub device_list_decoder : Decoder X DeviceListResponse
  device_list_decoder = record {
    decode = http.decode_device_list_response;
    decode_raw_list = some λ raw. device_list (http.decode_devices raw);
  }

  abbrev pub update_list_decoder : Decoder X DeviceUpdateListResponse
  update_list_decoder = record {
    decode = http.decode_device_update_list_response;
    decode_raw_list = some λ raw. update_list (http.decode_updates raw);
  }

  abbrev pub channel_decoder : Decoder X ChannelResponse
  channel_decoder = record { decode = http.decode_channel; decode_raw_list = none }

  abbrev pub owner_query : Dict Text
  owner_query =
      (codes "include_channels", codes "true") ∷ (codes "device_owner", cfg.service_name) ∷ []

  unfoldable pub fetch_devices : Action (Client W) (ApiError X) (List DeviceRecord)
  unfolding call
  fetch_devices = do
    response ←
        call http cfg (codes "GET") cfg.internal_devices_path owner_query none device_list_decoder
    pure (devices_of response)

  unfoldable pub format_updated_since : Time → Client W → Text × Client W
  format_updated_since t s =
      let (clock, w) = http.readings s.world in
      if is_zero t
      then (http.format_rfc3339 (clock 0), record s { world = w })
      else (http.format_rfc3339 t, s)

  -- formatUpdatedSince is called for the line of the log, and again for the query.
  unfoldable pub fetch_updated_devices : Time → Action (Client W) (ApiError X) (List DeviceRecord)
  unfolding call format_updated_since
  fetch_updated_devices updated_since s =
      let (logged_since, s₁) = format_updated_since updated_since s in
      let (since, s') = format_updated_since updated_since s₁ in
      (call http cfg (codes "GET") cfg.internal_updated_path
            (owner_query ++ ((codes "updated_since", since) ∷ [])) none device_list_decoder
          >>= λ response. pure (devices_of response))
        s'

  unfoldable pub fetch_device_updates : Action (Client W) (ApiError X) (List DeviceUpdate)
  unfolding call
  fetch_device_updates = do
    response ←
        call http cfg (codes "GET") cfg.outdated_properties_path
          ((codes "device_owner", cfg.service_name) ∷ []) none update_list_decoder
    pure (updates_of response)

  unfoldable pub create_deployment_channel :
      ℕ → CreateChannelRequest → Action (Client W) (ApiError X) ChannelMapping
  unfolding call mapping_of format_int
  create_deployment_channel deployment_id input = do
    response ←
        call http cfg (codes "POST") (channels_path deployment_id) [] (some (channel input))
          channel_decoder
    pure (mapping_of input response)

  abbrev pub client_readings : Client W → (ℕ → Time) × Client W
  client_readings s = let (clock, w) = http.readings s.world in (clock, record s { world = w })

  -- The client as the service and as the syncer know it.
  abbrev pub remote : Remote (Client W) (ApiError X)
  remote = record {
    readings = client_readings;
    fetch_devices = fetch_devices;
    fetch_updated_devices = fetch_updated_devices;
    create_deployment_channel = create_deployment_channel;
  }

  abbrev pub sync_client : SyncClient (Client W) (ApiError X)
  sync_client = record {
    readings = client_readings;
    fetch_devices = fetch_devices;
    fetch_updated_devices = fetch_updated_devices;
    fetch_device_updates = fetch_device_updates;
  }
