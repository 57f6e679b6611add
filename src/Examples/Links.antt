-- ===== src/Examples/Links.antt =====
-- client.go over jsonrpc/client.go: a call, its response, and the end of the connection.
use birpc.Base.{ℕ, ◌≡◌, refl, none, some, List, [], ◌∷◌, true, false, arith, count, nat_Eq}
use birpc.Base.Dict.{get, put, delete}
use birpc.Base.Text.{codes}
use birpc.Client.{Channel, new_client, go, done, offer, send_begin, send_end, take_response, handle}
use birpc.Client.Moves.{goes, sends}
use birpc.Client.Moves
use birpc.ClientCodec.{
  Op, headers, bodies, writes, ends_pending, acts, on_headers, on_bodies, on_writes, on_acts,
  perform, step, run, new_client_with_codec,
}
use birpc.Examples.Data.{json}
use birpc.Json.{Decoded, decoded, ClientResponse, no_value}
use birpc.Json.Client.{
  json_client_codec, new_client_codec, read_response_header, read_response_body, write_request,
  error_of,
}
use birpc.Json.Client.Ending.{is_over}
use birpc.Json.Client.Settling.{json_input_ends, json_calls_settle}
use birpc.Wire.{plain, Err}
use birpc.Base.{Option}

abbrev ten_each : ℕ → Channel
ten_each n = record { cap = 10; buffer = [] }

abbrev answer : ClientResponse
answer = record { id = 1; result = some (codes "12"); error = no_value }

abbrev shut : List (Decoded ClientResponse) → List (Decoded ClientResponse) × Option Err
shut l = ([], none)

abbrev two_calls : List Op
two_calls =
    acts (goes (codes "A.B") (plain 1) (plain 2) 0)
    ∷ acts (sends 0)
    ∷ writes
    ∷ headers
    ∷ bodies
    ∷ acts (goes (codes "A.C") (plain 3) (plain 4) 1)
    ∷ acts (sends 1)
    ∷ writes
    ∷ headers
    ∷ []

json_input_ends_example :
    let u =
      run
        (json_client_codec json shut)
        (new_client_with_codec (new_client_codec (decoded answer ∷ [])) ten_each)
        two_calls in
    (u.crashed ≡ false) × (is_over u.client.input ≡ true)
json_input_ends_example =
    json_input_ends json shut (decoded answer ∷ []) ten_each two_calls (λ l. omega arith)
      (omega arith)

json_calls_settle_example :
    count 1
      (step
        (json_client_codec json shut)
        (run
          (json_client_codec json shut)
          (new_client_with_codec (new_client_codec (decoded answer ∷ [])) ten_each)
          two_calls)
        ends_pending).client.signals
    ≡ 1
unfolding run step perform on_headers on_bodies on_writes on_acts new_client_with_codec
    new_client_codec new_client go done offer send_begin send_end take_response handle get put
    delete Moves.step read_response_header read_response_body write_request error_of
json_calls_settle_example =
    json_calls_settle json shut (decoded answer ∷ []) ten_each two_calls 1 (λ l. omega arith)
      (omega arith) (omega arith) refl refl
