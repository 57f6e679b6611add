-- ===== src/Examples/Clients.antt =====
-- client.go, basic_client.go: a client with two calls out.
use birpc.Base.{
  ◌⊎◌, length, ℕ, ◌+◌, ◌≤◌, ◌≡◌, ◌≢◌, refl, none, some, List, [], ◌∷◌, ◌++◌, false, arith, count,
  nat_Eq,
}
use birpc.Base.Text.{codes}
use birpc.Base.Dict.{get, put, delete}
use birpc.Wire.{Response, plain, eof, server_error, cancel_args}
use birpc.Client.{
  Channel, fresh, left, reading, new_client, go, done, offer, send_begin, send_end, take_response,
  handle, finish_all, terminate,
}
use birpc.Client.Moves.{
  Event, goes, sends, wrote, hears, hears_error, handles, terminates, abandons, step, run,
}
use birpc.Client.Runs.{signals_once, stopped_signals_all, numbers_distinct}
use birpc.Client.Delivery.{signals_received}
use birpc.Client.Answers.{reply_delivered, error_delivered, abandon_tells}

abbrev ten_each : ℕ → Channel
ten_each n = record { cap = 10; buffer = [] }

abbrev two_calls : List Event
two_calls =
    goes (codes "Arith.Add") (plain 1) (plain 2) 0
    ∷ sends 0
    ∷ wrote none
    ∷ goes (codes "Arith.Mul") (plain 3) (plain 4) 1
    ∷ sends 1
    ∷ wrote none
    ∷ []

abbrev add_reply : Response
add_reply = record { seq = 1; error = []; next = none }

abbrev mul_error : Response
mul_error = record { seq = 2; error = b'n' ∷ codes "o"; next = none }

abbrev stray : Response
stray = record { seq = 9; error = []; next = none }

-- the first call is answered, then the connection is lost
abbrev failed_run : List Event
failed_run = two_calls ++ hears add_reply ∷ handles none (plain 7) ∷ hears_error eof ∷ []

abbrev lost_run : List Event
lost_run = two_calls ++ hears add_reply ∷ handles none (plain 7) ∷ hears_error eof ∷ terminates ∷ []

signals_once_example : count 0 (run (new_client ten_each) lost_run).signals ≤ 1
signals_once_example = signals_once ten_each lost_run 0 (omega arith)

stopped_signals_all_example : count 1 (run (new_client ten_each) lost_run).signals ≡ 1
unfolding run step new_client go done offer send_begin send_end take_response handle terminate
    finish_all get put delete
stopped_signals_all_example = stopped_signals_all ten_each lost_run 1 (omega arith) refl refl

numbers_distinct_example :
    ((run (new_client ten_each) two_calls).calls 0).seq
    ≢ ((run (new_client ten_each) two_calls).calls 1).seq
unfolding run step new_client go send_begin send_end put delete
numbers_distinct_example =
    numbers_distinct ten_each two_calls 0 1 (omega arith) refl refl (omega arith) (ground arith)

reply_delivered_example :
    let c = run (new_client ten_each) two_calls in
    let c' = step (step c (hears add_reply)) (handles none (plain 7)) in
    ((c.calls 0).seq ≡ 1)
    × (c'.calls 1 ≡ c.calls 1)
    × (count 0 c.signals ≡ 0)
    × (count 1 c'.signals ≡ count 1 c.signals + 0)
    × (get 1 c'.pending ≡ none)
    × (c'.input ≡ reading)
unfolding run step new_client go send_begin send_end get put delete
reply_delivered_example =
    reply_delivered ten_each two_calls add_reply (plain 7) 0 1 (omega arith) refl refl refl

error_delivered_example :
    let c = run (new_client ten_each) two_calls in
    let c' = step (step c (hears mul_error)) (handles none (plain 7)) in
    ((c.calls 1).seq ≡ 2)
    × (c'.calls 1 ≡ record (c.calls 1) { error = some (server_error (codes "no")) })
    × (count 1 c.signals ≡ 0)
    × (count 1 c'.signals ≡ count 1 c.signals + 1)
    × (get 2 c'.pending ≡ none)
    × (c'.input ≡ reading)
unfolding run step new_client go send_begin send_end get put delete
error_delivered_example =
    error_delivered ten_each two_calls mul_error (plain 7) 1 1 b'n' (codes "o") (omega arith) refl
      refl refl

abandon_tells_example :
    let c = run (new_client ten_each) two_calls in
    let c' = step c (abandons 1) in
    (get 2 c'.pending ≡ none)
    × (c'.signals ≡ c.signals)
    × (c'.phase 1 ≡ left)
    × (c'.phase 2 ≡ fresh)
    × ((c'.calls 2).service_method ≡ codes "_goRPC_.Cancel")
    × ((c'.calls 2).args ≡ cancel_args 2 false)
    × ((c'.calls 2).done ≡ 1)
unfolding run step new_client go send_begin send_end get put delete
abandon_tells_example = abandon_tells ten_each two_calls 1 1 (omega arith) refl refl (ground arith)

-- both calls of a run that ends, on channels with room
signals_received_example :
    let c = run (new_client ten_each) lost_run in
    (length (c.channels (c.calls 0).done).buffer ≤ 10)
    × ((length (c.channels (c.calls 0).done).buffer ≡ 10)
        ⊎ (count 0 (c.channels (c.calls 0).done).buffer ≡ count 0 c.signals))
signals_received_example = signals_received ten_each lost_run 0 (λ n. refl) (omega arith)
