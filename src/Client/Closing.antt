-- ===== src/Client/Closing.antt =====
-- client.go, basic_client.go: what the steps of a client leave of `closing` and of the end of input.
use birpc.Base.{ℕ, ◌≡◌, refl, Option, none, some, [], ◌∷◌, true, arith, nat_Eq}
use birpc.Base.Dict.{Dict}
use birpc.Base.Text.{Text}
use birpc.Client.{
  Client, Phase, absent, fresh, writing, sent, left, stopped, go, done, set_error, send_begin,
  send_end, write_failed, handle, finish_all, final_error, terminate, made, abandon, forget,
  tell_server,
}
use birpc.Client.Moves.{goes, sends, abandons, on_sends, on_abandons, step}
use birpc.Wire.{Response, Value, Err}

-- Both are left alone.
pub record Keeps (c d : Client) : Type 0 where
  pub closing : d.closing ≡ c.closing
  pub input : d.input ≡ c.input

made-Keeps :
    (m : Text) (args reply : Value) (ch : ℕ) (c : Client) → Keeps c (made (go m args reply ch c) c)
unfolding go
made-Keeps m args reply ch c = record { closing = ground arith; input = ground arith }

pub goes-Keeps :
    (m : Text) (args reply : Value) (ch : ℕ) (c : Client) → Keeps c (step c (goes m args reply ch))
unfolding step
goes-Keeps m args reply ch c = made-Keeps m args reply ch c

send_begin-Keeps : (p : ℕ) (c : Client) → Keeps c (send_begin p c)
unfolding send_begin done
send_begin-Keeps p c = record { closing = ground arith; input = ground arith }

on_sends-Keeps : (ph : Phase) (o : Option ℕ) (p : ℕ) (c : Client) → Keeps c (on_sends ph o p c)
on_sends-Keeps fresh none p c = send_begin-Keeps p c
on_sends-Keeps fresh (some q) p c = record { closing = refl; input = refl }
on_sends-Keeps absent o p c = record { closing = refl; input = refl }
on_sends-Keeps writing o p c = record { closing = refl; input = refl }
on_sends-Keeps sent o p c = record { closing = refl; input = refl }
on_sends-Keeps left o p c = record { closing = refl; input = refl }

pub sends-Keeps : (p : ℕ) (c : Client) → Keeps c (step c (sends p))
unfolding step
sends-Keeps p c = on_sends-Keeps (c.phase p) c.sending p c

abandon-Keeps : (p : ℕ) (c : Client) → Keeps c (abandon p c)
unfolding abandon forget tell_server go
abandon-Keeps p c = record { closing = ground arith; input = ground arith }

on_abandons-Keeps : (ph : Phase) (p : ℕ) (c : Client) → Keeps c (on_abandons ph p c)
on_abandons-Keeps sent p c = abandon-Keeps p c
on_abandons-Keeps absent p c = record { closing = refl; input = refl }
on_abandons-Keeps fresh p c = record { closing = refl; input = refl }
on_abandons-Keeps writing p c = record { closing = refl; input = refl }
on_abandons-Keeps left p c = record { closing = refl; input = refl }

pub abandons-Keeps : (p : ℕ) (c : Client) → Keeps c (step c (abandons p))
unfolding step
abandons-Keeps p c = on_abandons-Keeps (c.phase p) p c

pub send_end-Keeps : (p : ℕ) (e : Option Err) (c : Client) → Keeps c (send_end p e c)
unfolding send_end write_failed done
send_end-Keeps p none c = record { closing = refl; input = refl }
send_end-Keeps p (some e) c = record { closing = ground arith; input = ground arith }

pub handle-closing :
    (o : Option ℕ) (r : Response) (e : Option Err) (v : Value) (c : Client)
    → (handle o r e v c).closing ≡ c.closing
unfolding handle done
handle-closing none r e v c = refl
handle-closing (some p) r e v c = ground arith

finish_all-closing : (e : Err) (m : Dict ℕ ℕ) (c : Client) → (finish_all e m c).closing ≡ c.closing
unfolding finish_all done
finish_all-closing e [] c = refl
finish_all-closing e ((s, p) ∷ m) c = finish_all-closing e m (done p (set_error p (some e) c))

pub terminate-closing : (e : Err) (c : Client) → (terminate e c).closing ≡ c.closing
unfolding terminate
terminate-closing e c =
    finish_all-closing (final_error c.closing e) c.pending
      (record c { shutdown = true; input = stopped })
