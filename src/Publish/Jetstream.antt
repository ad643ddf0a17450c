-- ===== src/Publish/Jetstream.antt =====
-- internal/publish/jetstream_publisher.go: Publish, ReadyStatus and Close. The NATS client and
-- proto.Marshal are the record `Nats`.
pub mod Message
pub mod Connect
use device_handler.Prelude.{
  ℕ, ◌+◌, ◌/◌, ◌%◌, Bool, true, false, ◌&&◌, not, Option, none, some, List, [], ◌∷◌, ◌++◌, Result,
  ok, err, if◌then◌else◌, ltb,
}
use device_handler.Time.{Duration, ℤ, pos, negsuc}
use device_handler.Text.{Text, codes}
use device_handler.Dict.{Dict, insert}
use device_handler.Telemetry.{Batch}
use device_handler.Telemetrypb
use device_handler.Publish.{PublishConfig}
use device_handler.Publish.Protobuf.{to_proto_batch}

-- nats.Msg, its Data as `payload`; a header with one value under each key.
pub record Msg : Type 0 where
  pub subject : Text
  pub payload : List ℕ
  pub header : Dict Text

-- The states of a connection that ReadyStatus tells apart.
pub data Status : Type 0 where
  connected reconnecting closed : Status
  other : (name : Text) → Status

-- What is read of a connection; `last_error` is the text of LastError.
pub record Conn : Type 0 where
  pub status : Status
  pub last_error : Option Text

-- The libraries, over a state `W` of the outside world; `X` is the type of their errors.
pub record Nats (W X : Type 0) : Type 0 where
  -- proto.Marshal
  pub marshal : Telemetrypb.Batch → Result X (List ℕ)
  -- PublishMsg, with the timeout that was added to the context; none is its success
  pub publish_msg : Msg → Option Duration → W → Option X × W

pub data PublishError (X : Type 0) : Type 0 where
  marshal_failed : X → PublishError X
  publish_failed : (subject : Text) → X → PublishError X

-- The lower-case digit of a number below 16.
abbrev pub hex_digit : ℕ → ℕ
hex_digit d = if ltb d 10 then 48 + d else 87 + d

-- hex.EncodeToString
unfoldable pub encode_to_string : List ℕ → Text
encode_to_string [] = []
encode_to_string (b ∷ bs) = hex_digit (b / 16) ∷ hex_digit (b % 16) ∷ encode_to_string bs

-- Header.Set, four times.
unfoldable pub message_of : Text → List ℕ → List ℕ → Msg
unfolding insert encode_to_string
message_of subject payload transmission_id = record {
  subject = subject;
  payload = payload;
  header = insert (codes "X-Transmission-Id") (encode_to_string transmission_id) (
      insert (codes "X-Ingest-Source") (codes "device-handler") (
        insert (codes "X-Proto-Schema") (codes "telemetry.v1.Batch")
          (insert (codes "Content-Type") (codes "application/x-protobuf") [])));
}

-- d > 0
abbrev pub is_positive : Duration → Bool
is_positive (pos n) = ltb 0 n
is_positive (negsuc n) = false

-- The timeout, if the context has no deadline of its own.
abbrev pub timeout_of : Bool → Duration → Option Duration
timeout_of has_deadline timeout =
    if not has_deadline && is_positive timeout then some timeout else none

abbrev pub acknowledged : {W X : Type 0} → Text → Option X × W → Option (PublishError X) × W
acknowledged subject (none, w) = (none, w)
acknowledged subject (some x, w) = (some (publish_failed subject x), w)

module _ {W X : Type 0} (nats : Nats W X) (cfg : PublishConfig) where
  -- Publish behind proto.Marshal.
  abbrev pub send : Bool → Text → Batch → Result X (List ℕ) → W → Option (PublishError X) × W
  send has_deadline subject batch (err x) w = (some (marshal_failed x), w)
  send has_deadline subject batch (ok payload) w = acknowledged subject (
      nats.publish_msg (message_of subject payload batch.transmission_id)
        (timeout_of has_deadline cfg.timeout) w)

  unfoldable pub publish : Bool → Text → Batch → W → Option (PublishError X) × W
  unfolding message_of to_proto_batch
  publish has_deadline subject batch w =
      send has_deadline subject batch (nats.marshal (to_proto_batch batch)) w

abbrev pub status_reason : Status → Option Text → Text
status_reason (other name) none = name
status_reason (other name) (some e) = e
status_reason connected e = []
status_reason reconnecting e = codes "nats reconnecting"
status_reason closed e = codes "nats connection closed"

abbrev pub is_connected : Status → Bool
is_connected connected = true
is_connected _ = false

abbrev pub is_closed : Status → Bool
is_closed closed = true
is_closed _ = false

-- ReadyStatus, given the connection, or none.
unfoldable pub ready_status : Option Conn → Bool × Text
ready_status none = (false, codes "nats connection not initialized")
ready_status (some c) = (is_connected c.status, status_reason c.status c.last_error)

-- The calls that Close makes.
pub data Call : Type 0 where
  drain close_conn : Call

unfoldable pub close : Option Conn → List Call
close none = []
close (some c) = if is_closed c.status then [] else drain ∷ close_conn ∷ []
