-- ===== src/Http.antt =====
-- server.go, client.go: the handshake over HTTP CONNECT, after which the connection carries calls. The
-- network and package net/http are parameters.
use birpc.Base.{
  ℕ, ◌≡◌, ◌⊎◌, inl, inr, ◌++◌, Option, none, some, [], ◌∷◌, Bool, true, false, if◌then◌else◌, ◌==◌,
  text_Eq, ltb,
}
use birpc.Base.Text.{Text, codes}
use birpc.Wire.{Err, plain_error}

abbrev pub newline : ℕ
newline = 10

-- the variable `connected`
abbrev pub connected : Text
connected = codes "200 Connected to Go RPC"

abbrev pub default_rpc_path : Text
default_rpc_path = codes "/_goRPC_"

-- A refused request: its status, http.StatusMethodNotAllowed, the header Content-Type and the body.
pub record Refusal : Type 0 where
  pub status : ℕ
  pub content_type : Text
  pub body : Text

-- What ServeHTTP does: it refuses, gives up as the connection cannot be taken over, or writes a
-- text on the connection and goes on with ServeConn.
pub data Handled : Type 0 where
  refuses : Refusal → Handled
  gives_up : Err → Handled
  serves : Text → Handled

-- ServeHTTP, on a request's method and the error of Hijack
unfoldable pub serve_http : Text → Option Err → Handled
serve_http method hijack =
    if method == codes "CONNECT"
    then elim hijack [
      | some e ↦ gives_up e
      | none ↦ serves (codes "HTTP/1.0 " ++ connected ++ newline ∷ newline ∷ [])
    ]
    else refuses (record {
      status = 405;
      content_type = codes "text/plain; charset=utf-8";
      body = codes "405 must CONNECT" ++ newline ∷ [];
    })

-- a text without the end of a line or another control character
abbrev pub one_line : Text → Bool
one_line [] = true
one_line (c ∷ s) = if ltb c 32 then false else one_line s

-- Connections, with what is still to be read from each, and http.ReadResponse, which gives the
-- response's Status, for a response with the code 200: the code and the text after it in the first
-- line.
pub record Net (N : Type 0) : Type 0 where
  pub dial : Text → Text → N ⊎ Err
  pub dial_timeout : Text → Text → ℕ → N ⊎ Err
  pub write_string : N → Text → N
  pub read_response : N → N × (Text ⊎ Err)
  pub close : N → N
  pub incoming : N → Text
  pub reads_status :
      (n : N) (reason rest : Text)
      → one_line reason ≡ true
      → incoming n ≡ codes "HTTP/1.0 200 " ++ reason ++ newline ∷ newline ∷ rest
      → (m : N) × (read_response n ≡ (m, inl (codes "200 " ++ reason)))

-- What dialling returns: a client over a connection, net's own error, or a net.OpError with its
-- field Net and its cause; the connection is then the one that was closed.
pub data Dialled (N : Type 0) : Type 0 where
  client : N → Dialled N
  not_dialled : Err → Dialled N
  op_error : (net : Text) (cause : Err) → N → Dialled N

module _ {N : Type 0} (net : Net N) where
  -- the answer to the request, and what is made of it
  unfoldable pub check_status : Text → N × (Text ⊎ Err) → Dialled N
  check_status name (conn, inl status) =
      if status == connected
      then client conn
      else op_error name (plain_error (codes "unexpected HTTP response: " ++ status))
          (net.close conn)
  check_status name (conn, inr e) = op_error name e (net.close conn)

  abbrev pub connect_request : Text → Text
  connect_request path = codes "CONNECT " ++ path ++ codes " HTTP/1.0" ++ newline ∷ newline ∷ []

  unfoldable pub dial_http_path_timeout : Text → Text → Text → ℕ → Dialled N
  unfolding check_status
  dial_http_path_timeout network address path timeout =
      elim (net.dial_timeout network address timeout) [
        | inr e ↦ not_dialled e
        | inl conn ↦
            check_status (network ++ codes " " ++ address)
              (net.read_response (net.write_string conn (connect_request path)))
      ]

  unfoldable pub dial_http_path : Text → Text → Text → Dialled N
  unfolding dial_http_path_timeout
  dial_http_path network address path = dial_http_path_timeout network address path 0

  unfoldable pub dial_http : Text → Text → Dialled N
  unfolding dial_http_path
  dial_http network address = dial_http_path network address default_rpc_path

  -- Dial
  unfoldable pub dial : Text → Text → Dialled N
  dial network address = elim (net.dial network address) [
    | inr e ↦ not_dialled e
    | inl conn ↦ client conn
  ]
