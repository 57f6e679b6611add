-- ===== src/Client/Receiving.antt =====
-- client.go, basic_client.go: input's handling of a response, and Close, keep the invariant.
use birpc.Base.{
  ℕ, ◌≡◌, refl, ◌≢◌, Option, none, some, true, arith, nat_Eq, Bool-cases, List-cases, inl, inr,
  update,
}
use birpc.Base.Dict.{get-delete, delete-IsMap}
use birpc.Wire.{Response, Value, Err}
use birpc.Client.{
  Client, reading, handling, failing, stopped, done, take_response, handle, close, next_input,
  body_error, Call,
}
use birpc.Client.Invariant.{in_hand, Inv}

-- Taking a call out of the map into the hands of input.
pub take_response-Inv :
    (r : Response) (c : Client) → c.input ≡ reading → Inv c → Inv (take_response r c)
unfolding take_response
take_response-Inv r c h v = record {
  keyed = λ s q k. ground (arith, get-delete r.seq s c.pending, v.keyed s q);
  listed = λ s q k. ground (arith, get-delete r.seq s c.pending, v.listed s q);
  ranged = λ s q k. ground (arith, get-delete r.seq s c.pending, v.ranged s q);
  distinct = delete-IsMap r.seq c.pending v.distinct;
  numbered = v.numbered;
  owned = v.owned;
  young = v.young;
  unborn = v.unborn;
  writes = v.writes;
  halted = λ k. cc;
  lower = λ q.
      ground (arith, h, get-delete r.seq (c.calls q).seq c.pending, v.keyed r.seq q, v.lower q);
  upper = λ q.
      ground (arith, h, get-delete r.seq (c.calls q).seq c.pending, v.keyed r.seq q, v.upper q);
}

closing-Inv : (c : Client) → Inv c → Inv (record c { closing = true })
closing-Inv c v = record {
  keyed = v.keyed;
  listed = v.listed;
  ranged = v.ranged;
  distinct = v.distinct;
  numbered = v.numbered;
  owned = v.owned;
  young = v.young;
  unborn = v.unborn;
  writes = v.writes;
  halted = v.halted;
  lower = λ p. ground (arith, v.lower p);
  upper = λ p. ground (arith, v.upper p);
}

pub close-Inv : (c : Client) → Inv c → Inv (close c).0
unfolding close
close-Inv c v = elim (Bool-cases c.closing) [
  | inl e ↦ ground (arith, e, v)
  | inr e ↦ ground (arith, e, closing-Inv c v)
]

-- The reader goes on, or fails, with no call in hand.
idle-Inv :
    (i : Option Err) (c : Client)
    → c.input ≢ stopped
    → ((p : ℕ) → in_hand c.input p ≡ 0)
    → Inv c
    → Inv (record c { input = next_input i })
idle-Inv i c h g v = record {
  keyed = v.keyed;
  listed = v.listed;
  ranged = v.ranged;
  distinct = v.distinct;
  numbered = v.numbered;
  owned = v.owned;
  young = v.young;
  unborn = v.unborn;
  writes = v.writes;
  halted = λ k. ground arith;
  lower = λ p. ground (arith, h, g p, v.lower p);
  upper = λ p. ground (arith, h, g p, v.upper p);
}

-- The call in hand is signalled, whatever was written to its error and its reply.
settle-Inv :
    (p : ℕ) (r : Response) (x : Call) (i : Option Err) (c : Client)
    → x.seq ≡ (c.calls p).seq
    → x.service_method ≡ (c.calls p).service_method
    → c.input ≡ handling (some p) r
    → Inv c
    → Inv (done p (record c { calls = update c.calls p x; input = next_input i }))
unfolding done
settle-Inv p r x i c e m h v = record {
  keyed = λ s q k. ground (arith, e, v.keyed s q);
  listed = v.listed;
  ranged = v.ranged;
  distinct = v.distinct;
  numbered = λ q k. ground (arith, e, v.numbered q);
  owned = λ a b k l pos y. ground (arith, e, v.owned a b);
  young = λ q k. ground (arith, e, v.young q);
  unborn = v.unborn;
  writes = λ q k. ground (arith, e, m, v.writes q);
  halted = λ k. ground arith;
  lower = λ q. ground (arith, e, h, v.lower q);
  upper = λ q. ground (arith, e, h, v.upper q);
}

-- The end of a response's handling.
pub handle-Inv :
    (o : Option ℕ) (r : Response) (e : Option Err) (reply : Value) (c : Client)
    → c.input ≡ handling o r
    → Inv c
    → Inv (handle o r e reply c)
unfolding handle done
handle-Inv none r e reply c h v = idle-Inv (body_error e) c (λ k. cc) (λ p. rw h refl) v
handle-Inv (some p) r e reply c h v = elim (List-cases r.error) [
  | inl k ↦ rw (k, handle) (unfold done in settle-Inv p r _ e c refl refl h v)
  | inr (x, s, k) ↦ rw (k, handle) (unfold done in settle-Inv p r _ (body_error e) c refl refl h v)
]

pub fail-Inv :
    (e : Err) (c : Client) → c.input ≡ reading → Inv c → Inv (record c { input = failing e })
fail-Inv e c h v = idle-Inv (some e) c (λ k. cc) (λ p. rw h refl) v
