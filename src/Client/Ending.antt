-- ===== src/Client/Ending.antt =====
-- client.go, basic_client.go: the end of a call's context and the end of input keep the invariant.
use birpc.Base.{
  ℕ, ◌+◌, ◌≡◌, refl, Option, none, some, [], ◌∷◌, true, false, arith, count, nat_eq, nat_Eq,
  if◌then◌else◌, Option-cases, inl, inr, update,
}
use birpc.Base.Text.{codes}
use birpc.Base.Dict.{Dict, get, delete, get-delete, IsMap, delete-IsMap}
use birpc.Wire.{nil_value, cancel_args, Err}
use birpc.Client.{
  Client, sent, left, failing, stopped, go, done, terminate, forget, tell_server, made, finish_all,
  final_error, abandon, set_error,
}
use birpc.Client.Invariant.{matches, Inv}
use birpc.Client.Sending.{if-Inv, go-Inv}

-- The call of a Call whose context has ended, before the server is told.
forget-Inv :
    (p : ℕ) (c : Client)
    → c.phase p ≡ sent
    → Inv c
    → Inv (record c {
      pending = delete (c.calls p).seq c.pending;
      calls =
          update c.calls p
            (record (c.calls p) { seq = if nat_eq (c.calls p).seq 0 then 1 else (c.calls p).seq });
      phase = update c.phase p left;
    })
forget-Inv p c h v =
    let seq : ℕ = (c.calls p).seq in
    let off = λ (s : ℕ). get-delete seq s c.pending in
    record {
      keyed = λ s q k. ground (arith, h, off s, v.keyed s q);
      listed = λ s q k. ground (arith, h, off s, v.keyed s q, v.listed s q);
      ranged = λ s q k. ground (arith, off s, v.ranged s q);
      distinct = delete-IsMap seq c.pending v.distinct;
      numbered = λ q k. ground (arith, v.numbered q);
      owned = λ a b k l pos y. ground (arith, v.owned a b);
      young = λ q k. ground (arith, v.young q);
      unborn = λ q k. ground (arith, h, v.unborn q);
      writes = λ q k. ground (arith, h, v.writes q);
      halted = v.halted;
      lower = λ q. ground (
        arith,
        h,
        off (c.calls q).seq,
        v.lower q,
        v.keyed seq q,
        v.listed seq q,
        v.ranged seq q,
        v.owned p q,
      );
      upper = λ q. ground (arith, h, off (c.calls q).seq, off 1, v.keyed 1 p, v.upper q, v.lower q);
    }

tell_server-Inv : (o : Option ℕ) (seq ch : ℕ) (c : Client) → Inv c → Inv (tell_server o seq ch c)
unfolding tell_server
tell_server-Inv none seq ch c v = v
tell_server-Inv (some q) seq ch c v = if-Inv (nat_eq seq 0) _ _ (λ e. v) (λ e. told)
  where
    told : Inv (made (go (codes "_goRPC_.Cancel") (cancel_args seq false) nil_value ch c) c)
    told =
        elim (Option-cases (go (codes "_goRPC_.Cancel") (cancel_args seq false) nil_value ch c)) [
          | inl e ↦ rw e v
          | inr (d, e) ↦
              rw e (go-Inv (codes "_goRPC_.Cancel") (cancel_args seq false) nil_value ch c d e v)
        ]

pub abandon-Inv : (p : ℕ) (c : Client) → c.phase p ≡ sent → Inv c → Inv (abandon p c)
unfolding abandon
abandon-Inv p c h v =
    tell_server-Inv (get (c.calls p).seq c.pending) (c.calls p).seq (c.calls p).done (forget p c)
      (forget-Inv p c h v)

-- How often a call stands in a map.
values : ℕ → Dict ℕ ℕ → ℕ
values p [] = 0
values p ((s, q) ∷ m) = (if nat_eq q p then 1 else 0) + values p m

-- In a map whose calls carry their own keys a call stands once, under its number.
values-eq :
    (f : ℕ → ℕ) (p : ℕ) (m : Dict ℕ ℕ)
    → IsMap m
    → ((s q : ℕ) → get s m ≡ some q → f q ≡ s)
    → values p m ≡ matches (get (f p) m) p
unfolding values get
values-eq f p [] d k = refl
values-eq f p ((s, q) ∷ m) d k =
    let own : f q ≡ s = k s q (ground arith) in
    let rest = values-eq f p m d.1 (λ t r h. k t r (ground (arith, d.0))) in
    ground (arith, own, rest, d.0)

-- What the loop over the pending calls leaves alone, and the signals that it sends.
record Finished (e : Err) (m : Dict ℕ ℕ) (c c' : Client) : Type 0 where
  same :
      (c'.seq ≡ c.seq)
      × (c'.pending ≡ c.pending)
      × (c'.phase ≡ c.phase)
      × (c'.sending ≡ c.sending)
      × (c'.input ≡ c.input)
      × (c'.shutdown ≡ c.shutdown)
      × (c'.next_call ≡ c.next_call)
      × (c'.request ≡ c.request)
  numbers : (p : ℕ) → (c'.calls p).seq ≡ (c.calls p).seq
  signalled : (p : ℕ) → count p c'.signals ≡ count p c.signals + values p m

finish_all-Finished : (e : Err) (m : Dict ℕ ℕ) (c : Client) → Finished e m c (finish_all e m c)
unfolding finish_all values
finish_all-Finished e [] c = record {
  same = ground arith;
  numbers = λ p. refl;
  signalled = λ p. omega arith;
}
finish_all-Finished e ((s, q) ∷ m) c =
    let f = finish_all-Finished e m (done q (set_error q (some e) c)) in
    record {
      same = f.same;
      numbers = λ p. ground (arith, f.numbers p);
      signalled = λ p. ground (arith, f.signalled p);
    }

Finished-Inv :
    (e x : Err) (c c' : Client)
    → c.input ≡ failing x
    → c.sending ≡ none
    → Finished e c.pending (record c { shutdown = true; input = stopped }) c'
    → Inv c
    → Inv c'
Finished-Inv e x c c' h k f v = record {
  keyed = λ s p g. ground (arith, f.same, f.numbers p, v.keyed s p);
  listed = λ s p g. ground (arith, f.same, v.listed s p);
  ranged = λ s p g. ground (arith, f.same, v.ranged s p);
  distinct = rw f.same.1 v.distinct;
  numbered = λ p g. ground (arith, f.same, f.numbers p, v.numbered p);
  owned = λ p q g l pos y. ground (arith, f.same, f.numbers p, f.numbers q, v.owned p q);
  young = λ p g. ground (arith, f.same, f.numbers p, v.young p);
  unborn = λ p g. ground (arith, f.same, v.unborn p);
  writes = λ p g. ground (arith, f.same, k);
  halted = λ g. ground (arith, f.same, k);
  lower = λ p. ground (arith, f.same, h, f.signalled p, once p, v.lower p);
  upper = λ p. ground (arith, f.same, h, f.signalled p, once p, v.upper p);
}
  where
    once : (p : ℕ) → values p c.pending ≡ matches (get (c.calls p).seq c.pending) p
    once p = values-eq (λ q. (c.calls q).seq) p c.pending v.distinct v.keyed

pub terminate-Inv :
    (e : Err) (c : Client) → c.input ≡ failing e → c.sending ≡ none → Inv c → Inv (terminate e c)
unfolding terminate
terminate-Inv e c h k v =
    Finished-Inv (final_error c.closing e) e c _ h k
      (finish_all-Finished (final_error c.closing e) c.pending
        (record c { shutdown = true; input = stopped }))
      v

pub terminate-seq : (e : Err) (c : Client) → (terminate e c).seq ≡ c.seq
unfolding terminate
terminate-seq e c =
    (finish_all-Finished (final_error c.closing e) c.pending
      (record c { shutdown = true; input = stopped })).same.0

pub terminate-stops :
    (e : Err) (c : Client)
    → ((terminate e c).input ≡ stopped)
      × ((terminate e c).shutdown ≡ true)
      × ((terminate e c).phase ≡ c.phase)
unfolding terminate
terminate-stops e c =
    let f =
      finish_all-Finished (final_error c.closing e) c.pending
        (record c { shutdown = true; input = stopped }) in
    ground (arith, f.same)
