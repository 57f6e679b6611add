-- ===== src/Examples/Hosts.antt =====
-- server.go: a server that accepts two connections, on each of which one request comes.
use birpc.Base.{
  ℕ, ◌≤◌, ◌≡◌, ◌⊎◌, inl, inr, refl, Option, none, some, List, [], ◌∷◌, ◌++◌, false, nat_eq,
  if◌then◌else◌,
}
use birpc.Base.Dict.{get, put}
use birpc.Base.Text.{codes, split_last_dot}
use birpc.BasicServer.{
  unregister_name, new_basic_server, get_service, send_response, get_request, get_response,
}
use birpc.Codec.{ServerCodec}
use birpc.Context.{Clock, with_cancel}
use birpc.Examples.Data.{program}
use birpc.FreeList.{obtain, release, empty}
use birpc.Server.{answer, read_request, read_header, read_rest}
use birpc.Server.Accounts.{answers, receipts}
use birpc.Server.Hosts.{
  Op, unregisters, acts, accept, new_server, start_serving, serve_codec, on_acts, perform, step,
  run,
}
use birpc.Server.Hosts.Histories.{server_answered_once}
use birpc.Server.Steps.{Serving, reads, closes, on_read}
use birpc.Server.Steps
use birpc.Service.{new_service, suitable_methods}
use birpc.Service.Types.{same_type, method_type}
use birpc.Wire.{eof}

-- a codec on which one request comes, with the number 7 and a method without a service
abbrev one_request : ServerCodec ℕ
one_request = record {
  read_request_header = λ k req.
      if nat_eq k 0
      then (1, record req { service_method = codes "Ping"; seq = 7 }, none)
      else (k, req, some eof);
  read_request_body = λ k x. (k, x, none);
  write_response = λ k r x. (k, none);
  close = λ k. (k, none);
}

abbrev start_clock : Clock
start_clock = record { now = 0; next_id = 0; fired = [] }

abbrev two_connections : List (Op ℕ)
two_connections =
    (accept (λ k. k) start_clock (inl 0 ∷ inl 0 ∷ inr eof ∷ inl 0 ∷ [])).0
    ++ acts 1 reads ∷ unregisters (codes "Ping") ∷ acts 0 reads ∷ acts 1 reads ∷ acts 1 closes ∷ []

abbrev or_started : Option (Serving ℕ) → Serving ℕ
or_started none = start_serving (new_basic_server program) 0 start_clock
or_started (some s) = s

abbrev pinged : Serving ℕ
pinged = or_started ((run one_request (new_server program) two_connections).served 1)

server_answered_once_example :
    (answers 7 pinged.conn.log ≤ receipts 7 pinged.conn.log)
    × ((pinged.closed ≡ false) ⊎ (answers 7 pinged.conn.log ≡ receipts 7 pinged.conn.log))
unfolding unregister_name accept run step perform new_server serve_codec start_serving on_acts
    Steps.step on_read read_request read_header read_rest get_service split_last_dot answer
    send_response with_cancel get_request get_response obtain release new_basic_server new_service
    suitable_methods same_type method_type put get empty
server_answered_once_example =
    server_answered_once one_request program two_connections 1 7 pinged refl
