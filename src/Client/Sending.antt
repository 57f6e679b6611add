-- ===== src/Client/Sending.antt =====
-- basic_client.go: Go and send keep the client's invariant.
use birpc.Base.{
  ℕ, ◌+◌, ◌^◌, ◌<◌, ◌≡◌, refl, ◌≢◌, Option, none, some, Bool, true, false, arith, nat_Eq,
  if◌then◌else◌, Option-cases, inl, inr, update, ◌||◌, ltb,
}
use birpc.Base.Text.{Text}
use birpc.Base.Dict.{get, put, delete, get-put, get-delete, put-IsMap, delete-IsMap}
use birpc.Wire.{Value, Err, err_shutdown, canceled, u64}
use birpc.Client.{
  Client, fresh, writing, sent, stopped, go, done, send_begin, write_failed, send_end, set_error,
  set_phase,
}
use birpc.Client.Invariant.{Inv, no_zero, no_later}

-- A new call.
pub go-Inv :
    (m : Text) (args reply : Value) (ch : ℕ) (c c' : Client)
    → go m args reply ch c ≡ some c'
    → Inv c
    → Inv c'
unfolding go
go-Inv m args reply ch c c' h v = record {
  keyed = λ s p k. ground (arith, h, v.keyed s p, v.listed s p, v.unborn c.next_call);
  listed = λ s p k. ground (arith, h, v.listed s p, v.unborn c.next_call);
  ranged = λ s p k. ground (arith, h, v.ranged s p);
  distinct = ground (arith, h, v.distinct);
  numbered = λ p k. ground (arith, h, v.numbered p);
  owned = λ p q k l pos e. ground (arith, h, v.owned p q);
  young = λ p k. ground (arith, h, v.young p);
  unborn = λ p k. ground (arith, h, v.unborn p);
  writes = λ p k. ground (arith, h, v.writes p, v.unborn p);
  halted = λ k. ground (arith, h, v.halted);
  lower = λ p. ground (arith, h, v.lower p, v.unborn p, v.young p, no_zero c v);
  upper = λ p. ground (arith, h, v.upper p, v.unborn p, v.young p, no_zero c v);
}

-- A registration: the call, which is new, takes the next number.
register-Inv :
    (p : ℕ) (c : Client)
    → c.seq + 1 < 2 ^ 64
    → c.phase p ≡ fresh
    → c.shutdown ≡ false
    → Inv c
    → Inv (record c {
      seq = u64 (c.seq + 1);
      calls = update c.calls p (record (c.calls p) { seq = u64 (c.seq + 1) });
      pending = put (u64 (c.seq + 1)) p c.pending;
      request = record c.request {
        seq = u64 (c.seq + 1);
        service_method = (c.calls p).service_method;
      };
      phase = update c.phase p writing;
      sending = some p;
    })
register-Inv p c small ph up v =
    let n : ℕ = u64 (c.seq + 1) in
    let next : n ≡ c.seq + 1 = omega arith in
    let unused = no_later c n v (omega arith) in
    record {
      keyed = λ s q k. ground (arith, next, get-put n s p c.pending, v.keyed s q, v.listed s q);
      listed = λ s q k. ground (arith, get-put n s p c.pending, v.listed s q);
      ranged = λ s q k. ground (arith, next, get-put n s p c.pending, v.ranged s q);
      distinct = put-IsMap n p c.pending v.distinct;
      numbered = λ q k. ground (arith, next, v.numbered q);
      owned = λ a b k l pos e. ground (arith, next, v.owned a b, v.numbered a, v.numbered b);
      young = λ q k. ground (arith, v.young q);
      unborn = λ q k. ground (arith, v.unborn q);
      writes = λ q k. ground arith;
      halted = λ k. ground (arith, v.halted);
      lower = λ q. ground (
        arith,
        next,
        get-put n n p c.pending,
        get-put n (c.calls q).seq p c.pending,
        unused,
        v.lower q,
        v.halted,
      );
      upper = λ q. ground (
        arith,
        next,
        get-put n n p c.pending,
        get-put n (c.calls q).seq p c.pending,
        unused,
        v.upper q,
        v.upper p,
        v.halted,
      );
    }

pub if-Inv :
    (b : Bool) (x y : Client) → (b ≡ true → Inv x) → (b ≡ false → Inv y) → Inv (if b then x else y)
if-Inv true x y f g = f refl
if-Inv false x y f g = g refl

-- A call that is refused by send.
refuse-Inv :
    (p : ℕ) (e : Err) (c : Client)
    → c.phase p ≡ fresh
    → Inv c
    → Inv (set_phase p sent (done p (set_error p (some e) c)))
unfolding done
refuse-Inv p e c ph v = record {
  keyed = λ s q k. ground (arith, v.keyed s q);
  listed = λ s q k. ground (arith, v.listed s q);
  ranged = λ s q k. v.ranged s q k;
  distinct = v.distinct;
  numbered = λ q k. ground (arith, v.numbered q, v.young q);
  owned = λ a b k l pos x. ground (arith, v.owned a b, v.young a, v.young b);
  young = λ q k. ground (arith, v.young q);
  unborn = λ q k. ground (arith, v.unborn q);
  writes = λ q k. ground (arith, v.writes q);
  halted = v.halted;
  lower = λ q. ground (arith, v.lower q);
  upper = λ q. ground (arith, v.upper q, v.upper p, v.lower q);
}

pub send_begin-Inv :
    (p : ℕ) (c : Client) → c.seq + 1 < 2 ^ 64 → c.phase p ≡ fresh → Inv c → Inv (send_begin p c)
unfolding send_begin
send_begin-Inv p c small ph v =
    if-Inv (c.shutdown || c.closing) _ _ (λ e. unfold done in refuse-Inv p err_shutdown c ph v)
      (λ e.
        if-Inv (ltb 0 (c.calls p).seq) _ _ (λ k. unfold done in refuse-Inv p canceled c ph v)
          (λ k. register-Inv p c small ph (ground (arith, e)) v))

-- The end of a write that succeeded, or whose call was taken by someone else.
written-Inv :
    (p : ℕ) (c : Client)
    → c.sending ≡ some p
    → Inv c
    → Inv (record c { phase = update c.phase p sent; sending = none })
written-Inv p c h v = record {
  keyed = v.keyed;
  listed = λ s q k. ground (arith, v.listed s q);
  ranged = v.ranged;
  distinct = v.distinct;
  numbered = λ q k. ground (arith, v.numbered q, v.writes p h);
  owned = λ a b k l pos x. ground (arith, v.owned a b, v.writes p h);
  young = λ q k. ground (arith, v.young q);
  unborn = λ q k. ground (arith, v.unborn q, v.writes p h);
  writes = λ q k. cc;
  halted = λ k. ground (arith, v.halted);
  lower = λ q. ground (arith, v.lower q, v.writes p h);
  upper = λ q. ground (arith, v.upper q, v.writes p h);
}

-- Taking a pending call out of the map and signalling it at once.
withdraw-Inv :
    (seq q : ℕ) (e : Err) (c : Client)
    → get seq c.pending ≡ some q
    → c.input ≢ stopped
    → Inv c
    → Inv (done q (set_error q (some e) (record c { pending = delete seq c.pending })))
unfolding done
withdraw-Inv seq q e c h live v = record {
  keyed = λ s r k. ground (arith, get-delete seq s c.pending, v.keyed s r);
  listed = λ s r k. ground (arith, get-delete seq s c.pending, v.listed s r);
  ranged = λ s r k. ground (arith, get-delete seq s c.pending, v.ranged s r);
  distinct = delete-IsMap seq c.pending v.distinct;
  numbered = λ r k. ground (arith, v.numbered r);
  owned = λ a b k l pos x. ground (arith, v.owned a b);
  young = λ r k. ground (arith, v.young r);
  unborn = v.unborn;
  writes = λ r k. ground (arith, v.writes r);
  halted = v.halted;
  lower = λ r. ground (
    arith,
    h,
    live,
    v.halted,
    get-delete seq (c.calls r).seq c.pending,
    v.keyed seq q,
    v.lower r,
  );
  upper = λ r. ground (
    arith,
    h,
    live,
    v.halted,
    get-delete seq (c.calls r).seq c.pending,
    v.keyed seq q,
    v.upper r,
  );
}

pub send_end-Inv :
    (p : ℕ) (e : Option Err) (c : Client) → c.sending ≡ some p → Inv c → Inv (send_end p e c)
unfolding send_end
send_end-Inv p none c h v = written-Inv p c h v
send_end-Inv p (some e) c h v = elim (Option-cases (get c.request.seq c.pending)) [
  | inl k ↦ rw (k, send_end, write_failed) (written-Inv p c h v)
  | inr (q, k) ↦
      rw (k, send_end, write_failed)
        (unfold done in
          withdraw-Inv c.request.seq q e
            (record c { phase = update c.phase p sent; sending = none }) k
            (λ x. ground (arith, h, v.halted x)) (written-Inv p c h v))
]
