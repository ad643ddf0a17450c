-- ===== src/Publish/Jetstream/Message.antt =====
-- The message that Publish of internal/publish/jetstream_publisher.go sends.
use device_handler.Prelude.{
  ℕ, ltb, inl, inr, Bool-cases, true, false, none, ◌/◌, ◌%◌, ◌≡◌, ◌<◌, refl, ap, ◌∙◌, Bool, Option,
  some, List, [], ◌∷◌, Result, ok, err, arith, All,
}
use device_handler.Time.{Duration, pos, negsuc}
use device_handler.Text.{Text, codes, equal}
use device_handler.Dict.{lookup}
use device_handler.Telemetry.{Batch}
use device_handler.Comet.{decode_string}
use device_handler.Comet.Bits.{decode-pair, decode-nil}
use device_handler.Publish.{PublishConfig}
use device_handler.Publish.Protobuf.{to_proto_batch}
use device_handler.Publish.Jetstream.{
  Msg, Nats, PublishError, marshal_failed, publish_failed, encode_to_string, message_of, timeout_of,
  acknowledged, send, publish,
}

abbrev pub AreBytes : List ℕ → Type 0
AreBytes = All (λ b. b < 256)

-- hex.DecodeString undoes hex.EncodeToString.
decode_string-encode : (bs : List ℕ) → AreBytes bs → decode_string (encode_to_string bs) ≡ some bs
unfolding encode_to_string
decode_string-encode [] h = decode-nil
decode_string-encode (b ∷ bs) h =
    decode-pair (b / 16) (b % 16) _ (omega (arith, h.0)) (omega arith) (decode_string-encode bs h.1)
    ∙ ap (λ n. some (n ∷ bs)) (omega arith)

-- The message carries the payload to the subject, and the transmission id can be read off its
-- header.
pub record Carries (m : Msg) (subject : Text) (payload id : List ℕ) : Type 0 where
  pub subject_is : m.subject ≡ subject
  pub payload_is : m.payload ≡ payload
  pub content_type : lookup (codes "Content-Type") m.header ≡ some (codes "application/x-protobuf")
  pub schema : lookup (codes "X-Proto-Schema") m.header ≡ some (codes "telemetry.v1.Batch")
  pub id_header : Text
  pub id_is : lookup (codes "X-Transmission-Id") m.header ≡ some id_header
  pub id_decoded : decode_string id_header ≡ some id

message_of-Carries :
    (subject : Text) (payload id : List ℕ)
    → AreBytes id
    → Carries (message_of subject payload id) subject payload id
unfolding message_of lookup equal
message_of-Carries subject payload id h = record {
  subject_is = refl;
  payload_is = refl;
  content_type = refl;
  schema = refl;
  id_header = encode_to_string id;
  id_is = refl;
  id_decoded = decode_string-encode id h;
}

module _ {W X : Type 0} (nats : Nats W X) (cfg : PublishConfig) where
  -- The timeout is added exactly to a context without a deadline, if it is positive.
  pub data IsTimeout : Bool → Duration → Option Duration → Type 0 where
    own_deadline : {d : Duration} → IsTimeout true d none
    added : {n : ℕ} → 0 < n → IsTimeout false (pos n) (some (pos n))
    no_time : {n : ℕ} → n ≡ 0 → IsTimeout false (pos n) none
    negative : {n : ℕ} → IsTimeout false (negsuc n) none

  timeout_of-IsTimeout :
      (has_deadline : Bool) (d : Duration) → IsTimeout has_deadline d (timeout_of has_deadline d)
  timeout_of-IsTimeout true d = own_deadline
  timeout_of-IsTimeout false (pos n) = elim (Bool-cases (ltb 0 n)) [
    | inl e ↦ rw e (added (ground arith))
    | inr e ↦ rw e (no_time (ground arith))
  ]
  timeout_of-IsTimeout false (negsuc n) = negative

  -- The three ways of Publish.
  pub data Publishes (has_deadline : Bool) (subject : Text) (batch : Batch) (w : W)
      : Option (PublishError X) × W → Type 0 where
    not_marshalled :
        (x : X)
        → nats.marshal (to_proto_batch batch) ≡ err x
        → Publishes has_deadline subject batch w (some (marshal_failed x), w)
    sent :
        (payload : List ℕ) (m : Msg) (timeout : Option Duration) {w' : W}
        → nats.marshal (to_proto_batch batch) ≡ ok payload
        → Carries m subject payload batch.transmission_id
        → IsTimeout has_deadline cfg.timeout timeout
        → nats.publish_msg m timeout w ≡ (none, w')
        → Publishes has_deadline subject batch w (none, w')
    not_sent :
        (payload : List ℕ) (m : Msg) (timeout : Option Duration) {x : X} {w' : W}
        → nats.marshal (to_proto_batch batch) ≡ ok payload
        → Carries m subject payload batch.transmission_id
        → IsTimeout has_deadline cfg.timeout timeout
        → nats.publish_msg m timeout w ≡ (some x, w')
        → Publishes has_deadline subject batch w (some (publish_failed subject x), w')

  acknowledged-Publishes :
      (has_deadline : Bool) (subject : Text) (batch : Batch) (w : W) (payload : List ℕ)
      (o : Option X × W)
      → AreBytes batch.transmission_id
      → nats.marshal (to_proto_batch batch) ≡ ok payload
      → nats.publish_msg
          (message_of subject payload batch.transmission_id)
          (timeout_of has_deadline cfg.timeout)
          w
        ≡ o
      → Publishes has_deadline subject batch w (acknowledged subject o)
  acknowledged-Publishes has_deadline subject batch w payload (none, w') h e sent_is =
      sent payload _ _ e (message_of-Carries subject payload batch.transmission_id h)
        (timeout_of-IsTimeout has_deadline cfg.timeout) sent_is
  acknowledged-Publishes has_deadline subject batch w payload (some x, w') h e sent_is =
      not_sent payload _ _ e (message_of-Carries subject payload batch.transmission_id h)
        (timeout_of-IsTimeout has_deadline cfg.timeout) sent_is

  send-Publishes :
      (has_deadline : Bool) (subject : Text) (batch : Batch) (w : W) (r : Result X (List ℕ))
      → AreBytes batch.transmission_id
      → nats.marshal (to_proto_batch batch) ≡ r
      → Publishes has_deadline subject batch w (send nats cfg has_deadline subject batch r w)
  send-Publishes has_deadline subject batch w (ok payload) h e =
      acknowledged-Publishes has_deadline subject batch w payload _ h e refl
  send-Publishes has_deadline subject batch w (err x) h e = not_marshalled x e

  -- For a transmission id of bytes, Publish has three ways. The batch cannot be marshalled, and then
  -- nothing is sent and the error is returned; or one message is given to PublishMsg, for the
  -- subject, with the marshalled batch as its data and a header that names the schema and from which
  -- hex decoding gives the transmission id back, and with the configured timeout exactly if that is
  -- positive and the context has no deadline: then Publish succeeds if PublishMsg does, and returns
  -- its error with the subject if not.
  pub publish-Publishes :
      (has_deadline : Bool) (subject : Text) (batch : Batch) (w : W)
      → AreBytes batch.transmission_id
      → Publishes has_deadline subject batch w (publish nats cfg has_deadline subject batch w)
  unfolding publish
  publish-Publishes has_deadline subject batch w h =
      send-Publishes has_deadline subject batch w (nats.marshal (to_proto_batch batch)) h refl
