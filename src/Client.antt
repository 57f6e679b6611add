-- ===== src/Client.antt =====
-- client.go, basic_client.go: the client's calls and the goroutines that use it. The state is that
-- of basicClient with the objects it shares with its callers: calls, by address, and the channels
-- `Done`. The steps are the parts of send, Call, Close and input that run without giving up a
-- mutex, and what the code does outside of one. `signals` is a history of the calls of `done`,
-- which the code does not keep.
pub mod Invariant
pub mod Sending
pub mod Receiving
pub mod Ending
pub mod Moves
pub mod Runs
pub mod Closing
pub mod Following
pub mod Answers
pub mod Channels
pub mod Holding
pub mod Delivery
pub mod State
unfoldable pub use State.*
use birpc.Base.{
  ℕ, suc, ◌+◌, ◌%◌, ◌^◌, ◌≡◌, ◌++◌, Option, none, some, List, [], ◌∷◌, Bool, true, false,
  if◌then◌else◌, update, nat_Eq, ltb, length, nat_eq, ◌||◌,
}
use birpc.Base.Text.{Text, codes}
use birpc.Base.Dict.{Dict, get, put, delete}
use birpc.Wire.{
  Request, Response, Value, Err, err_shutdown, canceled, server_error, plain_error, message,
  cancel_args, nil_value, eof, unexpected_eof, u64, zero_request,
}

-- Go, up to its `send`: the new call at the next address. `none` is the panic for a channel without
-- a buffer. (With no channel given, the caller's is a new one of capacity 10.)
unfoldable pub go : Text → Value → Value → ℕ → Client → Option Client
go service_method args reply ch c =
    if nat_eq (c.channels ch).cap 0
    then none
    else some (record c {
      calls = update c.calls c.next_call (record {
        service_method = service_method;
        args = args;
        reply = reply;
        error = none;
        done = ch;
        seq = 0;
      });
      next_call = c.next_call + 1;
      phase = update c.phase c.next_call fresh;
    })

-- send up to its write, which then holds `reqMutex`: refused where the client shuts down or the
-- call was cancelled before, else registered under the next number.
unfoldable pub send_begin : ℕ → Client → Client
unfolding done
send_begin p c =
    if c.shutdown || c.closing
    then set_phase p sent (done p (set_error p (some err_shutdown) c))
    else if ltb 0 (c.calls p).seq
    then set_phase p sent (done p (set_error p (some canceled) c))
    else record c {
      seq = u64 (c.seq + 1);
      calls = update c.calls p (record (c.calls p) { seq = u64 (c.seq + 1) });
      pending = put (u64 (c.seq + 1)) p c.pending;
      request = record c.request {
        seq = u64 (c.seq + 1);
        service_method = (c.calls p).service_method;
      };
      phase = update c.phase p writing;
      sending = some p;
    }

-- the end of a failed write: the call is taken back, if no one else has taken it
unfoldable pub write_failed : ℕ → Err → Client → Client
unfolding done
write_failed seq e c = elim (get seq c.pending) [
  | none ↦ c
  | some p ↦ done p (set_error p (some e) (record c { pending = delete seq c.pending }))
]

-- send from the result of WriteRequest on; `p` is the call that is being sent
unfoldable pub send_end : ℕ → Option Err → Client → Client
unfolding write_failed
send_end p none c = record c { phase = update c.phase p sent; sending = none }
send_end p (some e) c =
    write_failed c.request.seq e (record c { phase = update c.phase p sent; sending = none })

-- input, from a header that was read to the unlock
unfoldable pub take_response : Response → Client → Client
take_response r c = record c {
  input = handling (get r.seq c.pending) r;
  pending = delete r.seq c.pending;
}

-- the loop goes on while there is no error
abbrev pub next_input : Option Err → Input
next_input none = reading
next_input (some e) = failing e

-- the reply of the call that a response is for, the target of the body, or nil to discard it
abbrev pub body_target : Client → Option ℕ → Text → Value
body_target c none error = nil_value
body_target c (some p) [] = (c.calls p).reply
body_target c (some p) (x ∷ s) = nil_value

abbrev pub body_error : Option Err → Option Err
body_error none = none
body_error (some e) = some (plain_error (codes "reading error body: " ++ message e))

-- The switch of input, with the error of ReadResponseBody or none. The decoder fills the reply.
unfoldable pub handle : Option ℕ → Response → Option Err → Value → Client → Client
unfolding done
handle none r e reply c = record c { input = next_input (body_error e) }
handle (some p) r e reply c = elim r.error [
  | [] ↦
      let c₁ : Client = record c {
        calls = update c.calls p (record (c.calls p) {
          reply = reply;
          error = elim e [
            | none ↦ (c.calls p).error
            | some x ↦ some (plain_error (codes "reading body " ++ message x))
          ];
        });
        input = next_input e;
      } in
      done p c₁
  | x ∷ s ↦
      done p
        (set_error p (some (server_error (x ∷ s))) (record c { input = next_input (body_error e) }))
]

-- the error that pending calls end with
abbrev pub final_error : Bool → Err → Err
final_error true eof = err_shutdown
final_error false eof = unexpected_eof
final_error closing e = e

-- the loop that ends the pending calls; Go visits the map in any order
unfoldable pub finish_all : Err → Dict ℕ ℕ → Client → Client
unfolding done
finish_all e [] c = c
finish_all e ((seq, p) ∷ m) c = finish_all e m (done p (set_error p (some e) c))

-- the end of input, under both mutexes
unfoldable pub terminate : Err → Client → Client
unfolding finish_all
terminate e c =
    finish_all (final_error c.closing e) c.pending (record c { shutdown = true; input = stopped })

-- the state after a call was made, or the old one where Go panics
abbrev pub made : Option Client → Client → Client
made none c = c
made (some c') c = c'

-- Call at the end of its context, under the mutex: the call is taken out of the map, and one that
-- was never sent gets a number that will keep it from being sent.
unfoldable pub forget : ℕ → Client → Client
forget p c = record c {
  pending = delete (c.calls p).seq c.pending;
  calls =
      update c.calls p
        (record (c.calls p) { seq = if nat_eq (c.calls p).seq 0 then 1 else (c.calls p).seq });
  phase = update c.phase p left;
}

-- After that, for a call that was in the map: the call by which the server is told, on the same
-- channel. It is sent like any other. (The channel has room, so that Go does not panic.)
unfoldable pub tell_server : Option ℕ → ℕ → ℕ → Client → Client
unfolding go
tell_server none seq ch c = c
tell_server (some q) seq ch c =
    if nat_eq seq 0
    then c
    else made (go (codes "_goRPC_.Cancel") (cancel_args seq false) nil_value ch c) c

unfoldable pub abandon : ℕ → Client → Client
unfolding forget tell_server
abandon p c =
    tell_server (get (c.calls p).seq c.pending) (c.calls p).seq (c.calls p).done (forget p c)

-- Close: whether the codec is to be closed, else the error
unfoldable pub close : Client → Client × Option Err
close c = if c.closing then (c, some err_shutdown) else (record c { closing = true }, none)
