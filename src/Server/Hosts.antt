-- ===== src/Server/Hosts.antt =====
-- server.go: a server with any number of connections, each in ServeCodec. Its basicServer is shared
-- by all of them.
pub mod Histories
use birpc.Base.{
  ℕ, ◌+◌, ◌⊎◌, inl, inr, Option, none, some, List, [], ◌∷◌, Bool, true, false, if◌then◌else◌,
  update,
}
use birpc.BasicServer.{
  BasicServer, Registrant, registered, has_panicked, register_as, unregister_name, new_basic_server,
}
use birpc.Base.Text.{Text}
use birpc.Codec.{ServerCodec}
use birpc.Context.{Clock, background, with_cancel}
use birpc.Pending.{new_pending}
use birpc.Server.Steps.{Serving, Event}
use birpc.Server.Steps
use birpc.Service.Types.{Program}
use birpc.Wire.{Err}

-- Server, with its connections, by number. After `crashed`, a panic of a method, there is no process.
pub record Server (C : Type 0) : Type 0 where
  pub basic : BasicServer
  pub served : ℕ → Option (Serving C)
  pub next : ℕ
  pub crashed : Bool

-- NewServer
unfoldable pub new_server : {C : Type 0} → Program → Server C
new_server p = record { basic = new_basic_server p; served = λ _. none; next = 0; crashed = false }

-- what ServeCodec starts with: no calls, in a context of its own
unfoldable pub start_serving : {C : Type 0} → BasicServer → C → Clock → Serving C
unfolding with_cancel new_pending
start_serving b codec clock =
    let (ctx, cancel, k) = with_cancel background clock in
    record {
      conn = record { server = b; codec = codec; pending = new_pending ctx; clock = k; log = [] };
      tasks = [];
      scope = cancel;
      reading = true;
      closed = false;
      crashed = false;
    }

-- Register or RegisterName, UnregisterName, the begin of ServeCodec on a codec, and a step of a
-- connection.
pub data Op (C : Type 0) : Type 0 where
  registers : Program → Registrant → Text → Bool → Op C
  unregisters : Text → Op C
  connects : C → Clock → Op C
  acts : ℕ → Event → Op C

-- a connection as it stands, on the server that it shares
abbrev pub share : {C : Type 0} → BasicServer → Serving C → Serving C
share b s = record s { conn = record s.conn { server = b } }

unfoldable pub serve_codec : {C : Type 0} → C → Clock → Server C → Server C
unfolding start_serving
serve_codec codec clock w = record w {
  served = update w.served w.next (some (start_serving w.basic codec clock));
  next = w.next + 1;
}

-- Accept, on what the listener gives until its first error: the connections that are served, and
-- the error. ServeConn makes the codec of each.
unfoldable pub accept : {C L : Type 0} → (L → C) → Clock → List (L ⊎ Err) → List (Op C) × Option Err
accept new_codec clock [] = ([], none)
accept new_codec clock (inr e ∷ ls) = ([], some e)
accept new_codec clock (inl conn ∷ ls) =
    let (os, e) = accept new_codec clock ls in (connects (new_codec conn) clock ∷ os, e)

module _ {C : Type 0} (codec : ServerCodec C) where
  unfoldable pub on_acts : Option (Serving C) → ℕ → Event → Server C → Server C
  on_acts none i e w = w
  on_acts (some v) i e w =
      let s : Serving C = Steps.step codec (share w.basic v) e in
      record w { basic = s.conn.server; served = update w.served i (some s); crashed = s.crashed }

  unfoldable pub perform : Server C → Op C → Server C
  unfolding serve_codec on_acts
  perform w (registers p rcvr name use_name) =
      let o = register_as p w.basic rcvr name use_name in
      record w { basic = registered w.basic o; crashed = has_panicked o }
  perform w (unregisters name) = record w { basic = (unregister_name w.basic name).0 }
  perform w (connects c clock) = serve_codec c clock w
  perform w (acts i e) = on_acts (w.served i) i e w

  unfoldable pub step : Server C → Op C → Server C
  unfolding perform
  step w o = if w.crashed then w else perform w o

  unfoldable pub run : Server C → List (Op C) → Server C
  run w [] = w
  run w (o ∷ os) = run (step w o) os
