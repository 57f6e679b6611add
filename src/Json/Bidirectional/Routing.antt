-- ===== src/Json/Bidirectional/Routing.antt =====
-- jsonrpc/birpc_codec.go: where a message goes, and the messages that end the process.
use birpc.Base.{
  ℕ, ◌+◌, ◌≡◌, ◌↔◌, refl, Option, none, some, List, [], ◌∷◌, arith, nat_Eq, Option-cases, inl, inr,
}
use birpc.Base.Text.{Text}
use birpc.Base.Dict.{get, get-put}
use birpc.Json.{Decoded, decoded, Json, ServerResponse}
use birpc.Json.Server.{response_of}
use birpc.Json.Bidirectional.{
  Message, JsonCodec, Headers, IdReader, take_request, take_reply, take_message, read_header,
  write_response,
}
use birpc.Wire.{Request, Response, Value, u64, zero_request, zero_response}

take_reply_panics :
    (ids : IdReader) (c : JsonCodec) (m : Message) (resp : Response)
    → (take_reply ids c m resp ≡ none) ↔ (m.id ≡ none)
unfolding take_reply
take_reply_panics ids c m resp = (λ h. ground (arith, h), λ h. ground (arith, h))

take_message_panics :
    (ids : IdReader) (method : Text) (c : JsonCodec) (m : Message) (req : Request) (resp : Response)
    → (take_message ids method c m req resp ≡ none) ↔ ((method ≡ []) × (m.id ≡ none))
unfolding take_message
take_message_panics ids [] c m req resp = (
  λ h. (refl, (take_reply_panics ids c m resp).0 (ground (arith, h))),
  λ (_, i). ground (arith, (take_reply_panics ids c m resp).1 i),
)
take_message_panics ids (x ∷ s) c m req resp = (λ h. cc, λ h. cc (h.0))

-- The process panics in ReadHeader exactly when the next message has neither a method nor an id,
-- for instance `{}`, or a response with the id null.
pub read_header_panics :
    (ids : IdReader) (c : JsonCodec) (m : Message) (rest : List (Decoded Message)) (req : Request)
    (resp : Response)
    → c.incoming ≡ decoded m ∷ rest
    → (read_header ids c req resp ≡ none) ↔ ((m.method ≡ []) × (m.id ≡ none))
unfolding read_header
read_header_panics ids c m rest req resp i =
    rw (i) (take_message_panics ids m.method (record c { incoming = rest }) m req resp)

-- the responses sent once a request with the id was answered
abbrev pub answered : Json → Option Text → Text → Value → List ServerResponse → List ServerResponse
answered json none e v sent = sent
answered json (some i) e v sent = response_of json (some i) e v ∷ sent

-- A message with a method is handed on as a request, and the response written to it next carries
-- its id; to a notification, which has none, no response is sent. The number 0 must not be in the
-- map, where the codec never puts it before its numbers run out of 64 bits, and Encode must not
-- fail.
pub request_answered_by_id :
    (json : Json) (ids : IdReader) (c : JsonCodec) (m : Message) (rest : List (Decoded Message))
    (x : ℕ) (s e : Text) (v : Value)
    → c.incoming ≡ decoded m ∷ rest
    → m.method ≡ x ∷ s
    → get 0 c.pending ≡ none
    → ((r : ServerResponse) → json.encode_response r ≡ none)
    → (c' : JsonCodec) × (h : Headers) × (read_header ids c zero_request zero_response
        ≡ some (c', h))
      × (h.req.service_method ≡ m.method)
      × ((write_response json c'
            (record { seq = h.req.seq; error = e; next = none })
            v).0.sent_responses
          ≡ answered json m.id e v c.sent_responses)
unfolding read_header take_message take_request write_response
request_answered_by_id json ids c m rest x s e v i k zero enc =
    let (c', req') = take_request (record c { incoming = rest }) m zero_request in
    let h : Headers = record { req = req'; resp = zero_response; error = none } in
    let n : ℕ = u64 (c.seq + 1) in
    elim (Option-cases m.id) [
      | inl o ↦ (c', h, rw i (rw k refl), ground (arith, o, k), ground (arith, o, zero))
      | inr (b, o) ↦
          let found = get-put n n (some b) c.pending in
          (
            c',
            h,
            rw i (rw k refl),
            ground (arith, o, k),
            ground (arith, o, found, enc (response_of json (some b) e v)),
          )
    ]
