-- ===== src/Client/State.antt =====
-- client.go, basic_client.go: the state of the client, with the heap of its callers, and what every
-- operation does to a call.
use birpc.Base.{
  ℕ, ◌++◌, Option, none, List, [], ◌∷◌, Bool, false, if◌then◌else◌, update, nat_Eq, ltb, length,
}
use birpc.Base.Text.{Text}
use birpc.Base.Dict.{Dict}
use birpc.Wire.{Request, Response, Value, Err, nil_value, zero_request}

-- `done` is the address of a channel.
pub record Call : Type 0 where
  pub service_method : Text
  pub args : Value
  pub reply : Value
  pub error : Option Err
  pub done : ℕ
  pub seq : ℕ

-- a `chan *Call` with the calls in its buffer, oldest first
pub record Channel : Type 0 where
  pub cap : ℕ
  pub buffer : List ℕ

-- Where a call is on its way. A call is made (`fresh`), registered and being written (`writing`),
-- or its `send` has returned (`sent`); `left` is a call whose Call returned at the end of its
-- context, so that it cannot do so again.
pub data Phase : Type 0 where
  absent fresh writing sent left : Phase

-- Where the goroutine of `input` is: about to read a header; between the unlock and the end of the
-- switch, with the call it took from the map; past the loop with its error; or gone.
pub data Input : Type 0 where
  reading : Input
  handling : Option ℕ → Response → Input
  failing : Err → Input
  stopped : Input

-- The fields of basicClient but its codec, then the heap, then the goroutines: the call whose
-- `send` holds `reqMutex`, and `input`.
pub record Client : Type 0 where
  pub request : Request
  pub seq : ℕ
  pub pending : Dict ℕ ℕ
  pub closing : Bool
  pub shutdown : Bool
  pub calls : ℕ → Call
  pub next_call : ℕ
  pub channels : ℕ → Channel
  pub phase : ℕ → Phase
  pub sending : Option ℕ
  pub input : Input
  pub signals : List ℕ

abbrev pub blank_call : Call
blank_call = record {
  service_method = [];
  args = nil_value;
  reply = nil_value;
  error = none;
  done = 0;
  seq = 0;
}

-- newBasicClient, with `go client.input()`; the channels are the callers'
unfoldable pub new_client : (ℕ → Channel) → Client
new_client channels = record {
  request = zero_request;
  seq = 0;
  pending = [];
  closing = false;
  shutdown = false;
  calls = λ _. blank_call;
  next_call = 0;
  channels = channels;
  phase = λ _. absent;
  sending = none;
  input = reading;
  signals = [];
}

-- `call.done()`: the send on the channel, or nothing where its buffer is full
unfoldable pub offer : ℕ → Channel → Channel
offer p ch =
    if ltb (length ch.buffer) ch.cap then record ch { buffer = ch.buffer ++ p ∷ [] } else ch

unfoldable pub done : ℕ → Client → Client
unfolding offer
done p c = record c {
  channels = update c.channels (c.calls p).done (offer p (c.channels (c.calls p).done));
  signals = p ∷ c.signals;
}

abbrev pub set_error : ℕ → Option Err → Client → Client
set_error p e c = record c { calls = update c.calls p (record (c.calls p) { error = e }) }

abbrev pub set_phase : ℕ → Phase → Client → Client
set_phase p ph c = record c { phase = update c.phase p ph }
