-- ===== src/Json/Client/Headers.antt =====
-- jsonrpc/client.go: what a header that was read says of the body that follows.
use birpc.Base.{◌≡◌, ◌≢◌, ◌⊎◌, inl, inr, refl, Option, none, some, List, [], ◌∷◌, arith}
use birpc.Base.Text.{Text}
use birpc.Json.{
  Decoded, decoded, undecodable, Any, no_value, text_value, other_value, ClientResponse, Json,
}
use birpc.Json.Client.{JsonClient, error_of, read_response_header, read_response_body}
use birpc.Wire.{Response, Value, nil_value}

error_of_result :
    (result : Option Text) (a : Any)
    → error_of result a ≡ ([], none)
    → (t : Text) × (result ≡ some t)
unfolding error_of
error_of_result none no_value h = cc
error_of_result none (text_value []) h = cc
error_of_result none (text_value (c ∷ s)) h = cc
error_of_result none (other_value n) h = cc
error_of_result (some t) a h = (t, refl)

pub header_result :
    (c c' : JsonClient) (r r' : Response) (incoming : List (Decoded ClientResponse))
    → c.incoming ≡ incoming
    → read_response_header c r ≡ (c', r', none)
    → r'.error ≡ []
    → (t : Text) × (c'.resp.result ≡ some t)
unfolding read_response_header
header_result c c' r r' [] i h e = absurd (ground (arith, i, h))
header_result c c' r r' (undecodable x ∷ rest) i h e = absurd (ground (arith, i, h))
header_result c c' r r' (decoded m ∷ rest) i h e =
    let (t, found) = error_of_result m.result m.error (ground (arith, i, h, e)) in
    (t, ground (arith, i, h, found))

-- After a header that was read without an error, ReadResponseBody is no nil dereference, if the
-- header has no error text or the body is discarded.
pub body_after_header :
    (json : Json) (c c' : JsonClient) (r r' : Response) (x : Value)
    → read_response_header c r ≡ (c', r', none)
    → (r'.error ≡ []) ⊎ (x ≡ nil_value)
    → read_response_body json c' x ≢ none
unfolding read_response_body
body_after_header json c c' r r' x h (inr e) = ground (arith, e)
body_after_header json c c' r r' x h (inl e) =
    let (t, found) = header_result c c' r r' c.incoming refl h e in ground (arith, found)
