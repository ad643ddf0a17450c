-- ===== src/Api/Echo.antt =====
-- CreateDeploymentChannel of internal/api/client.go as the service relies on it.
use device_handler.Prelude.{
  ℕ, ◌≡◌, ◌⊎◌, inl, inr, refl, true, some, List, [], Result, ok, err, length, Bool-cases, subst,
  ◌==◌,
}
use device_handler.Text.{Text, Unicode, codes, equal, trim_space}
use device_handler.Text.Normal.{equal_refl}
use device_handler.Dict.{Dict}
use device_handler.Cache.{ChannelMapping, same_tag}
use device_handler.Action.{continue, pure}
use device_handler.Ingest.State.{CreateChannelRequest}
use device_handler.Ingest.Ensured.{Echoes}
use device_handler.Api.{
  ApiConfig, channel, ApiRequest, ApiResponse, ChannelResponse, Http, Client, ApiError, encode_body,
  build_url, create_request, perform_request, perform_retry, read_body, wrapped, is_success,
}
use device_handler.Api.Token.{perform, ensure_token, clear_token}
use device_handler.Api.Requests.{
  new_request, retry_of, retry, retry_unauthorized, decode_with, accept_response, do_json, call,
}
use device_handler.Api.Calls.{
  mapping_of, channels_path, channel_decoder, create_deployment_channel, remote,
}

-- What the REST API does with a request for a channel: a reply of success to a request that was made
-- with this body names no tag or, up to case and outer white space, the tag that was asked for.
pub record ChannelLaws ⦃u : Unicode⦄ {W X : Type 0} (http : Http W X) : Type 0 where
  pub replies :
      (q : CreateChannelRequest) (r : ApiRequest) (w : W) (response : ApiResponse X)
      (content body : List ℕ) (c : ChannelResponse)
      → http.encode (channel q) ≡ ok body
      → r.get_body ≡ some body
      → r.content_length ≡ length body
      → (http.send r w).0 ≡ ok response
      → is_success response.status_code ≡ true
      → response.body ≡ ok content
      → http.decode_channel content ≡ ok c
      → (equal (trim_space c.tag) [] ≡ true) ⊎ (same_tag c.tag q.tag ≡ true)

abbrev Any : {A : Type 0} → A → Type 0
Any a = Unit

module _ {W X : Type 0} where
  -- What is known of a value, if one is returned.
  abbrev Holds : {A : Type 0} → (A → Type 0) → Result (ApiError X) A × Client W → Type 0
  Holds P (ok a, s) = P a
  Holds P (err e, s) = Unit

  continue-Holds :
      {A B : Type 0} (Q : A → Type 0) (P : B → Type 0)
      (f : A → Client W → Result (ApiError X) B × Client W) (r : Result (ApiError X) A × Client W)
      → Holds Q r
      → ((a : A) (s : Client W) → Q a → Holds P (f a s))
      → Holds P (continue f r)
  continue-Holds Q P f (ok a, s) q h = h a s q
  continue-Holds Q P f (err e, s) q h = tt

  wrapped-Holds :
      {A : Type 0} (message : X → ApiError X) (r : Result X A) (s : Client W)
      → Holds (λ a. r ≡ ok a) (wrapped message r s)
  wrapped-Holds message (ok a) s = refl
  wrapped-Holds message (err x) s = tt

  Any-Holds : {A : Type 0} (r : Result (ApiError X) A × Client W) → Holds Any r
  Any-Holds (ok a, s) = tt
  Any-Holds (err e, s) = tt

module _ ⦃u : Unicode⦄ {W X : Type 0} (http : Http W X) (laws : ChannelLaws http) (cfg : ApiConfig)
    (q : CreateChannelRequest) where
  abbrev Asks : ApiRequest → Type 0
  Asks r =
      (body : List ℕ) × (http.encode (channel q) ≡ ok body)
      × (r.get_body ≡ some body)
      × (r.content_length ≡ length body)

  abbrev IsReply : ChannelResponse → Type 0
  IsReply c = (equal (trim_space c.tag) [] ≡ true) ⊎ (same_tag c.tag q.tag ≡ true)

  -- An answer to a request for the channel.
  abbrev Answers : ApiResponse X → Type 0
  Answers response = (r : ApiRequest) × (w : W) × Asks r × ((http.send r w).0 ≡ ok response)

  new_request-Asks :
      (method path : Text) (query : Dict Text) (s : Client W)
      → Holds Asks (new_request http cfg method path query (some (channel q)) s)
  unfolding new_request
  new_request-Asks method path query s =
      continue-Holds Any Asks _ (wrapped build_url (http.join_path cfg.base_url path) s)
        (Any-Holds _)
        λ url s₁ h₁.
          continue-Holds (λ b. http.encode (channel q) ≡ ok b) Asks _
            (wrapped encode_body (http.encode (channel q)) s₁) (wrapped-Holds _ _ s₁)
            λ body s₂ h₂.
              continue-Holds Any Asks _ (wrapped create_request (http.check_request method url) s₂)
                (Any-Holds _)
                λ x s₃ h₃.
                  continue-Holds Any Asks _ (ensure_token http cfg s₃) (Any-Holds _)
                    λ token s₄ h₄. (body, h₂, refl, refl)

  perform-Answers :
      (message : X → ApiError X) (r : ApiRequest) (s : Client W)
      → Asks r
      → Holds Answers (perform http message r s)
  perform-Answers message r s h = answered (http.send r s.world).0 refl
    where
      answered :
          (o : Result X (ApiResponse X))
          → (http.send r s.world).0 ≡ o
          → Holds Answers (wrapped message o (record s { world = (http.send r s.world).1 }))
      answered (ok response) e = (r, s.world, h, e)
      answered (err x) e = tt

  retry-Answers : (r : ApiRequest) (s : Client W) → Asks r → Holds Answers (retry http cfg r s)
  unfolding retry
  retry-Answers r s asks =
      continue-Holds Any Answers _ (ensure_token http cfg (clear_token s)) (Any-Holds _)
        λ token t h. perform-Answers perform_retry (retry_of http cfg r token) t asks

  retry_unauthorized-Answers :
      (r : ApiRequest) (response : ApiResponse X) (s : Client W)
      → Asks r
      → Answers response
      → Holds Answers (retry_unauthorized http cfg r response s)
  unfolding retry_unauthorized
  retry_unauthorized-Answers r response s asks answers =
      elim (Bool-cases (response.status_code == 401)) [
        | inl e ↦ rw e (retry-Answers r s asks)
        | inr e ↦ rw e answers
      ]

  accept_response-IsReply :
      (response : ApiResponse X) (content : List ℕ) (s : Client W)
      → Answers response
      → response.body ≡ ok content
      → Holds IsReply (accept_response http (channel_decoder http cfg) response content s)
  accept_response-IsReply response content s (r, w, (body, encoded, kept, long), e) h =
      elim (Bool-cases (is_success response.status_code)) [
        | inl success ↦ rw success (decoded success (http.decode_channel content) refl)
        | inr other ↦ rw other tt
      ]
    where
      decoded :
          is_success response.status_code ≡ true
          → (o : Result X ChannelResponse) → http.decode_channel content ≡ o
          → Holds IsReply (decode_with http (channel_decoder http cfg) content o s)
      decoded success (ok c) d =
          laws.replies q r w response content body c encoded kept long e success h d
      decoded success (err x) d = tt

  call-IsReply :
      (method path : Text) (query : Dict Text) (s : Client W)
      → Holds IsReply
          (call http cfg method path query (some (channel q)) (channel_decoder http cfg) s)
  unfolding call do_json
  call-IsReply method path query s =
      continue-Holds Asks IsReply _ (new_request http cfg method path query (some (channel q)) s)
        (new_request-Asks method path query s)
        λ r s₁ asks.
          continue-Holds Answers IsReply _ (perform http perform_request r s₁)
            (perform-Answers perform_request r s₁ asks)
            λ first s₂ answers.
              continue-Holds Answers IsReply _ (retry_unauthorized http cfg r first s₂)
                (retry_unauthorized-Answers r first s₂ asks answers)
                λ response s₃ answers'.
                  continue-Holds (λ content. response.body ≡ ok content) IsReply _
                    (wrapped read_body response.body s₃) (wrapped-Holds _ _ s₃)
                    λ content s₄ h. accept_response-IsReply response content s₄ answers' h

  -- The tag of the mapping is the one asked for, up to case and outer white space.
  abbrev IsEcho : ChannelMapping → Type 0
  IsEcho m = same_tag m.tag q.tag ≡ true

  mapping_of-IsEcho : (c : ChannelResponse) → IsReply c → IsEcho (mapping_of q c)
  unfolding mapping_of same_tag
  mapping_of-IsEcho c reply = elim (Bool-cases (equal (trim_space c.tag) [])) [
    | inl blank ↦ rw blank (equal_refl _)
    | inr other ↦ elim reply [ inl blank ↦ cc | inr echo ↦ rw other echo ]
  ]

  created-IsEcho : (d : ℕ) (s : Client W) → Holds IsEcho (create_deployment_channel http cfg d q s)
  unfolding create_deployment_channel
  created-IsEcho d s =
      continue-Holds IsReply IsEcho (λ c. pure (mapping_of q c))
        (call http cfg (codes "POST") (channels_path d) [] (some (channel q))
          (channel_decoder http cfg) s)
        (call-IsReply (codes "POST") (channels_path d) [] s) λ c t reply. mapping_of-IsEcho c reply

module _ ⦃u : Unicode⦄ {W X : Type 0} (http : Http W X) (laws : ChannelLaws http)
    (cfg : ApiConfig) where
  -- If the REST API replies with success to a request for a channel only with no tag or with the tag
  -- that was asked for, up to case and outer white space, then CreateDeploymentChannel gives the
  -- channel that it returns the tag that was asked for, up to these, whatever token the client has
  -- and whether or not the request was first sent back with status 401.
  pub create_deployment_channel-same_tag :
      (d : ℕ) (q : CreateChannelRequest) (s s' : Client W) (m : ChannelMapping)
      → create_deployment_channel http cfg d q s ≡ (ok m, s')
      → same_tag m.tag q.tag ≡ true
  create_deployment_channel-same_tag d q s s' m e =
      subst (Holds (IsEcho http laws cfg q)) e (created-IsEcho http laws cfg q d s)

  -- What ensureChannels needs of the client.
  pub remote-Echoes : Echoes (remote http cfg)
  remote-Echoes = record { echo = create_deployment_channel-same_tag }
