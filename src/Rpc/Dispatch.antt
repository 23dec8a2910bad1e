-- ===== src/Rpc/Dispatch.antt =====
-- codechiev/net/protobuf/protoServer.cpp: ProtoServer::onMessage, the job that a message becomes.
-- The generated code and the service are arguments: how a GenericReq is parsed to the name of a method
-- and a request, which method a name has, and what a method responds (none if it does not run the
-- callback).
use codechiev.Common.{
  ℕ, ◌<◌, ◌≡◌, refl, ◌∙◌, false, Option, none, some, List, ◌++◌, length, drop, All, ◌==◌,
  Bool-cases, inl, inr,
}
use codechiev.Common.Assoc.{lookup}
use codechiev.Internet.Bytes.{Endian}
use codechiev.Channel.{Channel}
use codechiev.Coder.Decode.{frame}
use codechiev.Endpoint.{Endpoint}
use codechiev.Endpoint.Server.{get_channel}
use codechiev.Rpc.{call_method, callback}
use codechiev.Rpc.Frames.{queued, CanSend, call_method-sends}

pub record Service : Type 0 where
  pub parse : List ℕ → List ℕ × List ℕ
  pub find_method : List ℕ → Option ℕ
  pub respond : ℕ → List ℕ → Option (List ℕ)

-- What `getChannel` finds, as the descriptor that the callback's weak pointer leads to.
unfoldable pub holder : ℕ → Option Channel → Option ℕ
holder fd none = none
holder fd (some c) = some fd

module _ (e : Endian) (service : Service) (listener : ℕ) where
  unfoldable pub on_message : List ℕ → ℕ → Endpoint → Option Endpoint
  on_message msg fd s =
      let (name, request) = service.parse msg in
      elim (service.find_method name) [
        | none ↦ some s
        | some method ↦ elim (service.respond method request) [
          | none ↦ some s
          | some response ↦ callback e (holder fd (get_channel listener fd s)) response s
        ]
      ]

  -- Which response the service gives to a message.
  abbrev pub Responds : List ℕ → List ℕ → Type 0
  Responds msg response =
      (method : ℕ) × (service.find_method (service.parse msg).0 ≡ some method)
      × (service.respond method (service.parse msg).1 ≡ some response)

  holder-alive :
      (fd : ℕ) (s : Endpoint) (c : Channel)
      → lookup fd s.channels ≡ some c
      → (fd == listener) ≡ false
      → holder fd (get_channel listener fd s) ≡ some fd
  unfolding holder get_channel
  holder-alive fd s c alive other = rw (other, alive) refl

  holder-gone :
      (fd : ℕ) (s : Endpoint)
      → lookup fd s.channels ≡ none
      → holder fd (get_channel listener fd s) ≡ none
  unfolding holder get_channel
  holder-gone fd s gone = elim (Bool-cases (fd == listener)) [
    | inl same ↦ rw same refl
    | inr other ↦ rw (other, gone) refl
  ]

  on_message-Responds :
      (msg response : List ℕ) (fd : ℕ) (s : Endpoint) (at : Option ℕ)
      → Responds msg response
      → holder fd (get_channel listener fd s) ≡ at
      → on_message msg fd s ≡ callback e at response s
  unfolding on_message
  on_message-Responds msg response fd s at (method, found, responds) held =
      rw (found, responds, held, on_message) refl

  -- On a channel that is alive, `onMessage` sends the response as `CallMethod` sends a request.
  pub on_message-sends :
      (msg response : List ℕ) (fd : ℕ) (s : Endpoint) (c : Channel)
      → Responds msg response
      → lookup fd s.channels ≡ some c
      → (fd == listener) ≡ false
      → on_message msg fd s ≡ call_method e (some fd) response s
  unfolding callback call_method
  on_message-sends msg response fd s c responds alive other =
      on_message-Responds msg response fd s (some fd) responds (holder-alive fd s c alive other)

  -- When the service responds to a message, the message's channel is alive and not the listening
  -- one, its write buffer has room for the response and its header, and the response has no 0 byte,
  -- `onMessage` appends the frame of the response to the write buffer and sets the channel to wait
  -- for input and output.
  pub on_message-answers :
      (msg response : List ℕ) (fd : ℕ) (s : Endpoint) (c : Channel) (pre xs post : List ℕ)
      → Responds msg response
      → (fd == listener) ≡ false
      → CanSend fd s c pre xs post (length response)
      → All (λ b. 0 < b) response
      → on_message msg fd s
        ≡ some (queued fd s c pre (xs ++ frame response) (drop (length response) (drop 4 post)))
  on_message-answers msg response fd s c pre xs post responds other can nonzero =
      on_message-sends msg response fd s c responds can.0 other
      ∙ call_method-sends e fd s c pre xs post response can nonzero

  -- A response for a channel that is gone is dropped.
  pub on_message-gone :
      (msg response : List ℕ) (fd : ℕ) (s : Endpoint)
      → Responds msg response
      → lookup fd s.channels ≡ none
      → on_message msg fd s ≡ some s
  unfolding callback
  on_message-gone msg response fd s responds gone =
      on_message-Responds msg response fd s none responds (holder-gone fd s gone) ∙ refl
