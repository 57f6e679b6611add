-- ===== src/Client/Moves.antt =====
-- client.go, basic_client.go: the steps of the client's goroutines and of its callers, in any order.
use birpc.Base.{ℕ, Option, none, some, List, [], ◌∷◌}
use birpc.Base.Text.{Text}
use birpc.Wire.{Response, Value, Err}
use birpc.Client.{
  Client, Phase, absent, fresh, writing, sent, left, Input, reading, handling, failing, stopped, go,
  send_begin, send_end, take_response, handle, terminate, abandon, made, close,
}

-- A caller makes a call; its goroutine takes `reqMutex` and registers it; the write returns; input
-- reads a header, or fails to; deals with the response it took; ends the pending calls, which
-- takes `reqMutex` too; the context of a Call ends; a caller closes the client.
pub data Event : Type 0 where
  goes : (service_method : Text) (args reply : Value) (channel : ℕ) → Event
  sends : ℕ → Event
  wrote : Option Err → Event
  hears : Response → Event
  hears_error : Err → Event
  handles : Option Err → Value → Event
  terminates : Event
  abandons : ℕ → Event
  closes : Event

abbrev pub on_sends : Phase → Option ℕ → ℕ → Client → Client
on_sends fresh none p c = send_begin p c
on_sends fresh (some q) p c = c
on_sends absent o p c = c
on_sends writing o p c = c
on_sends sent o p c = c
on_sends left o p c = c

abbrev pub on_wrote : Option ℕ → Option Err → Client → Client
on_wrote none e c = c
on_wrote (some p) e c = send_end p e c

abbrev pub on_hears : Input → Response → Client → Client
on_hears reading r c = take_response r c
on_hears (handling o s) r c = c
on_hears (failing e) r c = c
on_hears stopped r c = c

abbrev pub on_hears_error : Input → Err → Client → Client
on_hears_error reading e c = record c { input = failing e }
on_hears_error (handling o s) e c = c
on_hears_error (failing x) e c = c
on_hears_error stopped e c = c

abbrev pub on_handles : Input → Option Err → Value → Client → Client
on_handles reading e v c = c
on_handles (handling o r) e v c = handle o r e v c
on_handles (failing x) e v c = c
on_handles stopped e v c = c

abbrev pub on_terminates : Input → Option ℕ → Client → Client
on_terminates (failing e) none c = terminate e c
on_terminates (failing e) (some p) c = c
on_terminates reading o c = c
on_terminates (handling q r) o c = c
on_terminates stopped o c = c

abbrev pub on_abandons : Phase → ℕ → Client → Client
on_abandons sent p c = abandon p c
on_abandons absent p c = c
on_abandons fresh p c = c
on_abandons writing p c = c
on_abandons left p c = c

-- An event that cannot happen in a state changes nothing.
unfoldable pub step : Client → Event → Client
step c (goes m args reply ch) = made (go m args reply ch c) c
step c (sends p) = on_sends (c.phase p) c.sending p c
step c (wrote e) = on_wrote c.sending e c
step c (hears r) = on_hears c.input r c
step c (hears_error e) = on_hears_error c.input e c
step c (handles e v) = on_handles c.input e v c
step c terminates = on_terminates c.input c.sending c
step c (abandons p) = on_abandons (c.phase p) p c
step c closes = (close c).0

unfoldable pub run : Client → List Event → Client
run c [] = c
run c (e ∷ es) = run (step c e) es
