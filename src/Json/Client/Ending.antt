-- ===== src/Json/Client/Ending.antt =====
-- client.go over jsonrpc/client.go: how a client's input takes its turns until its connection ends.
use birpc.Base.{
  ℕ, ◌+◌, ◌≤◌, ◌≡◌, ◌⊎◌, inl, inr, refl, sym, ◌∙◌, ap, Option, none, some, List, [], ◌∷◌, Bool,
  true, false, arith, length, if◌then◌else◌, List-cases, nat_Eq,
}
use birpc.Base.Text.{Text}
use birpc.Client.{
  Client, Input, reading, handling, failing, stopped, handle, next_input, body_error, done,
}
use birpc.Client.Closing.{Keeps}
use birpc.ClientCodec.{Link, Op, headers, bodies, writes, ends_pending, shuts, acts}
use birpc.Json.{Decoded, decoded, undecodable, ClientResponse}
use birpc.Json.Client.{JsonClient, read_response_header}
use birpc.Wire.{Response, Value, Err}

-- whether input has left its loop
abbrev pub is_over : Input → Bool
is_over reading = false
is_over (handling o r) = false
is_over (failing e) = true
is_over stopped = true

abbrev pub is_reading : Input → Bool
is_reading reading = true
is_reading (handling o r) = false
is_reading (failing e) = false
is_reading stopped = false

-- Whether input is about to read a header after a step, and how many it reads in it, if it has not
-- left its loop and was, or was not, about to read one before.
abbrev pub next_turn : Op → Bool → Bool
next_turn headers b = false
next_turn bodies b = true
next_turn writes b = b
next_turn ends_pending b = b
next_turn shuts b = b
next_turn (acts e) b = b

abbrev pub turn : Op → Bool → ℕ
turn headers b = if b then 1 else 0
turn bodies b = 0
turn writes b = 0
turn ends_pending b = 0
turn shuts b = 0
turn (acts e) b = 0

-- how many headers input reads in a run, if it does not leave its loop before
abbrev pub turns : Bool → List Op → ℕ
turns b [] = 0
turns b (o ∷ os) = turn o b + turns (next_turn o b) os

pub record Ready (b : Bool) (s : Link JsonClient) : Type 0 where
  pub sound : s.crashed ≡ false
  pub sync : (is_over s.client.input ≡ true) ⊎ (is_reading s.client.input ≡ b)
  pub body :
      (o : Option ℕ) (r : Response)
      → s.client.input ≡ handling o r
      → r.error ≡ []
      → (t : Text) × (s.codec.resp.result ≡ some t)

-- what is left to be read
abbrev pub remaining : Link JsonClient → ℕ
remaining s = length s.codec.incoming

-- A step with `n` reads of a header, after which the flag is `b`.
pub record Advances (b : Bool) (n : ℕ) (s u : Link JsonClient) : Type 0 where
  pub ready : Ready b u
  pub last : is_over s.client.input ≡ true → is_over u.client.input ≡ true
  pub less : (is_over u.client.input ≡ true) ⊎ (remaining u + n ≤ remaining s)

-- A step of the others.
pub record Apart (s u : Link JsonClient) : Type 0 where
  pub crashed : u.crashed ≡ s.crashed
  pub input : u.client.input ≡ s.client.input
  pub resp : u.codec.resp ≡ s.codec.resp
  pub fewer : remaining u ≤ remaining s

pub idle : (s : Link JsonClient) → Apart s s
idle s = record { crashed = refl; input = refl; resp = refl; fewer = omega arith }

pub unmoved :
    (s : Link JsonClient) (c : Client)
    → c.input ≡ s.client.input
    → Apart s (record s { client = c })
unmoved s c h = record { crashed = refl; input = h; resp = refl; fewer = omega arith }

pub kept : (s : Link JsonClient) (c : Client) → Keeps s.client c → Apart s (record s { client = c })
kept s c k = unmoved s c k.input

pub Apart-Advances : (b : Bool) (s u : Link JsonClient) → Ready b s → Apart s u → Advances b 0 s u
Apart-Advances b s u v k = record {
  ready = record {
    sound = k.crashed ∙ v.sound;
    sync = elim v.sync [
      | inl h ↦ inl (ap is_over k.input ∙ h)
      | inr h ↦ inr (ap is_reading k.input ∙ h)
    ];
    body = λ o r h e.
        let (t, f) = v.body o r (sym k.input ∙ h) e in (t, ap (λ x. x.result) k.resp ∙ f);
  };
  last = λ h. ap is_over k.input ∙ h;
  less = inr (omega (arith, k.fewer));
}

pub handle-next :
    (o : Option ℕ) (r : Response) (e : Option Err) (v : Value) (c : Client)
    → (x : Option Err) × ((handle o r e v c).input ≡ next_input x)
unfolding handle done
handle-next none r e v c = (body_error e, refl)
handle-next (some p) r e v c = elim (List-cases r.error) [
  | inl h ↦ (e, ground (arith, h))
  | inr (x, xs, h) ↦ (body_error e, ground (arith, h))
]

pub over-Advances :
    (b : Bool) (n : ℕ) (s u : Link JsonClient)
    → is_over u.client.input ≡ true
    → u.crashed ≡ false
    → Advances b n s u
over-Advances b n s u h k = record {
  ready = record { sound = k; sync = inl h; body = λ o r e z. absurd (ground (arith, h, e)) };
  last = λ _. h;
  less = inl h;
}

pub not_reading :
    (b : Bool) (s : Link JsonClient) (o : Option ℕ) (r : Response)
    → s.client.input ≡ handling o r
    → Ready b s
    → b ≡ false
not_reading b s o r h v = elim v.sync [
  | inl k ↦ absurd (ground (arith, h, k))
  | inr k ↦ ground (arith, h, k)
]

pub is_reading_flag :
    (b : Bool) (s : Link JsonClient) → s.client.input ≡ reading → Ready b s → b ≡ true
is_reading_flag b s h v = elim v.sync [
  | inl k ↦ absurd (ground (arith, h, k))
  | inr k ↦ ground (arith, h, k)
]

pub header_consumes :
    (c c' : JsonClient) (r r' : Response) (incoming : List (Decoded ClientResponse))
    → c.incoming ≡ incoming
    → read_response_header c r ≡ (c', r', none)
    → length c'.incoming + 1 ≡ length c.incoming
unfolding read_response_header
header_consumes c c' r r' [] i h = absurd (ground (arith, i, h))
header_consumes c c' r r' (undecodable x ∷ rest) i h = absurd (ground (arith, i, h))
header_consumes c c' r r' (decoded m ∷ rest) i h = ground (arith, i, h)
