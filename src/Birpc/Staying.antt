-- ===== src/Birpc/Staying.antt =====
-- birpc_client.go: the steps of a connection that are not of its end, and what they leave as it is.
use birpc.Base.{
  ℕ, ◌≡◌, refl, ◌∙◌, Option, none, some, [], ◌∷◌, arith, Option-cases, inl, inr, update,
}
use birpc.Base.Text.{Text}
use birpc.BasicServer.{BasicServer, get_request}
use birpc.Birpc.{BirpcCodec, BirpcClient, read_response, dispatch, route, input_header}
use birpc.Birpc.Steps.{Session, begins, ends, on_headers, on_bodies, on_writes, perform}
use birpc.Client.{Client, Input, reading, handling, failing, stopped, take_response}
use birpc.Client.Closing.{Keeps, send_end-Keeps, handle-closing}
use birpc.Server.{Conn, Read, stops, refuses, accepts}
use birpc.Server.Steps.{pick}
use birpc.Server.Steps
use birpc.Wire.{Response, zero_response}

module _ {C : Type 0} where
  -- A step that moves neither the stage nor the counts, and revives nothing.
  pub record Stays (s u : Session C) : Type 0 where
    pub stage : u.stage ≡ s.stage
    pub disconnects : u.disconnects ≡ s.disconnects
    pub codec_closes : u.codec_closes ≡ s.codec_closes
    pub in_close : u.in_close ≡ s.in_close
    pub closing : u.link.client.closing ≡ s.link.client.closing
    pub input : s.link.client.input ≡ stopped → u.link.client.input ≡ stopped
    pub tasks : s.link.client.input ≡ stopped → s.link.tasks ≡ [] → u.link.tasks ≡ []

  still : (s : Session C) → Stays s s
  still s = record {
    stage = refl;
    disconnects = refl;
    codec_closes = refl;
    in_close = refl;
    closing = refl;
    input = λ h. h;
    tasks = λ h k. k;
  }

module _ {C : Type 0} (codec : BirpcCodec C) where
  dispatch-closing :
      (b : BirpcClient C) (c : Conn C) (r : Read)
      → (dispatch codec b (c, r)).client.closing ≡ b.client.closing
  dispatch-closing b c (stops e) = refl
  dispatch-closing b c (refuses req e) = refl
  dispatch-closing b c (accepts t) = refl

  route-closing :
      (b : BirpcClient C) (req : ℕ) (m : Text) (resp : Response)
      → (route codec b req m resp).client.closing ≡ b.client.closing
  unfolding route
  route-closing b req [] resp = unfold take_response in refl
  route-closing b req (x ∷ s) resp = dispatch-closing b _ _

  input_header-closing :
      (b : BirpcClient C) → (input_header codec b).client.closing ≡ b.client.closing
  unfolding input_header
  input_header-closing b =
      let (req, s₁) = get_request b.conn.server in
      let (k, r, resp, e) = codec.read_header b.conn.codec (s₁.free_req.cells req) zero_response in
      let s₂ : BasicServer = record s₁ {
        free_req = record s₁.free_req { cells = update s₁.free_req.cells req r };
      } in
      let b' : BirpcClient C = record b { conn = record b.conn { server = s₂; codec = k } } in
      let routed = route-closing b' req r.service_method resp in
      elim (Option-cases e) [ inr (x, p) ↦ ground (arith, p) | inl p ↦ ground (arith, p, routed) ]

  pub on_headers-Stays :
      (i : Input) (s : Session C) → s.link.client.input ≡ i → Stays s (on_headers codec i s)
  unfolding on_headers
  on_headers-Stays reading s h = record {
    stage = refl;
    disconnects = refl;
    codec_closes = refl;
    in_close = refl;
    closing = input_header-closing s.link;
    input = λ k. cc;
    tasks = λ k. cc;
  }
  on_headers-Stays (handling o r) s h = still s
  on_headers-Stays (failing e) s h = still s
  on_headers-Stays stopped s h = still s

  pub on_bodies-Stays :
      (i : Input) (s : Session C) → s.link.client.input ≡ i → Stays s (on_bodies codec i s)
  unfolding on_bodies read_response
  on_bodies-Stays reading s h = still s
  on_bodies-Stays (handling o r) s h = record {
    stage = refl;
    disconnects = refl;
    codec_closes = refl;
    in_close = refl;
    closing = handle-closing o r _ _ s.link.client;
    input = λ k. cc;
    tasks = λ k. cc;
  }
  on_bodies-Stays (failing e) s h = still s
  on_bodies-Stays stopped s h = still s

  pub Keeps-Stays :
      (s : Session C) (c : Client) (k : Conn C)
      → Keeps s.link.client c
      → Stays s (record s { link = record s.link { conn = k; client = c } })
  Keeps-Stays s c k v = record {
    stage = refl;
    disconnects = refl;
    codec_closes = refl;
    in_close = refl;
    closing = v.closing;
    input = λ h. v.input ∙ h;
    tasks = λ h t. t;
  }

  pub on_writes-Stays : (o : Option ℕ) (s : Session C) → Stays s (on_writes codec o s)
  unfolding on_writes
  on_writes-Stays none s = still s
  on_writes-Stays (some p) s = Keeps-Stays s _ _ (send_end-Keeps p _ s.link.client)

  pub begins-Stays : (s : Session C) (i : ℕ) → Stays s (perform codec s (begins i))
  unfolding perform Steps.step
  begins-Stays s i = record {
    stage = refl;
    disconnects = refl;
    codec_closes = refl;
    in_close = refl;
    closing = refl;
    input = λ h. h;
    tasks = λ h t. rw t refl;
  }

  pub ends-Stays : (s : Session C) (i : ℕ) → Stays s (perform codec s (ends i))
  unfolding perform Steps.step
  ends-Stays s i = record {
    stage = refl;
    disconnects = refl;
    codec_closes = refl;
    in_close = refl;
    closing = refl;
    input = λ h. h;
    tasks = λ h t. rw t refl;
  }
