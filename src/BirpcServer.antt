-- ===== src/BirpcServer.antt =====
-- birpc_server.go: a server of bidirectional connections, and the functions that its users register to
-- hear of a connection's start and end. Its basicServer is shared by all of its connections.
pub mod Notices
pub mod Lasting
pub mod Registrations
pub mod Handlers
pub mod Partings
pub mod Histories
use birpc.Base.{
  ℕ, ◌+◌, ◌≡◌, ◌++◌, Option, none, some, List, [], ◌∷◌, Bool, true, false, ◌&&◌, if◌then◌else◌,
  update, nat_eq, count, map,
}
use birpc.BasicServer.{
  BasicServer, Registrant, registered, has_panicked, register_as, unregister_name, new_basic_server,
}
use birpc.Base.Text.{Text}
use birpc.Birpc.{BirpcCodec, open_link}
use birpc.Birpc.Steps.{Session, Stage, looping, waiting, notified, ended, new_session}
use birpc.Birpc.Steps
use birpc.Client.{Channel}
use birpc.Context.{Clock}
use birpc.Service.Types.{Program}
use birpc.Wire.{Err}

-- hub.Kind, with the constants of birpc_server.go
pub data Kind : Type 0 where
  client_connected client_disconnected : Kind

abbrev pub same_kind : Kind → Kind → Bool
same_kind client_connected client_connected = true
same_kind client_connected client_disconnected = false
same_kind client_disconnected client_connected = false
same_kind client_disconnected client_disconnected = true

-- Package hub: an empty hub, Subscribe, and Publish, which calls the handlers subscribed for the kind
-- of an event, in an order it does not promise. A handler is named by a number.
pub record Hub (H : Type 0) : Type 0 where
  pub empty : H
  pub subscribe : Kind → ℕ → H → H
  pub publish : Kind → H → List ℕ
  pub publish-empty : (k : Kind) → publish k empty ≡ []
  pub publish-subscribe :
      (k k' : Kind) (f g : ℕ) (h : H)
      → count f (publish k (subscribe k' g h))
        ≡ (if same_kind k k' && nat_eq f g then 1 else 0) + count f (publish k h)

-- a goroutine `go f(client)` that a handler starts, with the number of the connection
pub record Start : Type 0 where
  pub kind : Kind
  pub handler : ℕ
  pub connection : ℕ

-- A connection in ServeCodec. `left` says that ServeCodec has returned.
pub record Served (C : Type 0) : Type 0 where
  pub session : Session C
  pub left : Bool

-- BirpcServer, with its connections, by number, and the goroutines that its handlers started. After
-- `crashed`, a panic of a method, there is no process.
pub record BirpcServer (C H : Type 0) : Type 0 where
  pub basic : BasicServer
  pub event_hub : H
  pub served : ℕ → Option (Served C)
  pub next : ℕ
  pub started : List Start
  pub crashed : Bool

-- Register or RegisterName, UnregisterName, OnConnect, OnDisconnect, the begin of ServeCodec on a codec, a step of a connection, and the return
-- of its ServeCodec
pub data Op (C : Type 0) : Type 0 where
  on_connect on_disconnect : ℕ → Op C
  connects : C → (ℕ → Channel) → Clock → Op C
  acts : ℕ → Steps.Op → Op C
  leaves : ℕ → Op C
  registers : Program → Registrant → Text → Bool → Op C
  unregisters : Text → Op C

-- a step of a connection, on the server that it shares
abbrev pub share : {C : Type 0} → BasicServer → Session C → Session C
share b s = record s { link = record s.link { conn = record s.link.conn { server = b } } }

module _ {C H : Type 0} (codec : BirpcCodec C) (hub : Hub H) where
  -- NewBirpcServer
  unfoldable pub new_birpc_server : Program → BirpcServer C H
  new_birpc_server p = record {
    basic = new_basic_server p;
    event_hub = hub.empty;
    served = λ _. none;
    next = 0;
    started = [];
    crashed = false;
  }

  -- Publish, of an event with a connection
  unfoldable pub publish : Kind → ℕ → BirpcServer C H → BirpcServer C H
  publish k i w = record w {
    started =
        map (λ f. record { kind = k; handler = f; connection = i }) (hub.publish k w.event_hub)
        ++ w.started;
  }

  -- ServeCodec up to `input`
  unfoldable pub serve_codec : C → (ℕ → Channel) → Clock → BirpcServer C H → BirpcServer C H
  unfolding publish
  serve_codec c channels clock w = publish client_connected w.next (record w {
    served = update w.served w.next (
        some (record {
          session = new_session (open_link w.basic c channels w.next clock);
          left = false;
        }));
    next = w.next + 1;
  })

  unfoldable pub on_acts : Option (Served C) → ℕ → Steps.Op → BirpcServer C H → BirpcServer C H
  on_acts none i o w = w
  on_acts (some v) i o w =
      let s : Session C = Steps.step codec (share w.basic v.session) o in
      record w {
        basic = s.link.conn.server;
        served = update w.served i (some (record v { session = s }));
        crashed = s.crashed;
      }

  -- ServeCodec from the return of `input`: the event, and the deferred Close of the codec
  unfoldable pub return_codec : ℕ → Session C → Stage → BirpcServer C H → BirpcServer C H
  unfolding publish
  return_codec i s (ended b) w = publish client_disconnected i (record w {
    served = update w.served i (some (record { session = Steps.close_codec codec s; left = true }));
  })
  return_codec i s looping w = w
  return_codec i s (waiting b) w = w
  return_codec i s (notified b) w = w

  unfoldable pub on_leaves : Option (Served C) → ℕ → BirpcServer C H → BirpcServer C H
  unfolding return_codec
  on_leaves none i w = w
  on_leaves (some v) i w = if v.left then w else return_codec i v.session v.session.stage w

  unfoldable pub perform : BirpcServer C H → Op C → BirpcServer C H
  unfolding serve_codec on_acts on_leaves
  perform w (on_connect f) = record w { event_hub = hub.subscribe client_connected f w.event_hub }
  perform w (on_disconnect f) = record w {
    event_hub = hub.subscribe client_disconnected f w.event_hub;
  }
  perform w (connects c channels clock) = serve_codec c channels clock w
  perform w (acts i o) = on_acts (w.served i) i o w
  perform w (leaves i) = on_leaves (w.served i) i w
  perform w (registers p rcvr name use_name) =
      let o = register_as p w.basic rcvr name use_name in
      record w { basic = registered w.basic o; crashed = has_panicked o }
  perform w (unregisters name) = record w { basic = (unregister_name w.basic name).0 }

  unfoldable pub step : BirpcServer C H → Op C → BirpcServer C H
  unfolding perform
  step w o = if w.crashed then w else perform w o

  unfoldable pub run : BirpcServer C H → List (Op C) → BirpcServer C H
  run w [] = w
  run w (o ∷ os) = run (step w o) os
