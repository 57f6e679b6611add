-- ===== src/Server/Replies.antt =====
-- basic_server.go, service.go: what a response carries.
use birpc.Base.{nat_eq_refl, ℕ, ◌≡◌, refl, none, [], ◌∷◌}
use birpc.Base.Text.{Text}
use birpc.Codec.{ServerCodec}
use birpc.FreeList.{Response-Linked, FreeList, obtain}
use birpc.FreeList.Ownership.{obtain-zeroed}
use birpc.Wire.{Response, Value, empty_struct, zero_response}
use birpc.BasicServer.{BasicServer, send_response, response_header}

header_fresh :
    (seq : ℕ) (errmsg : Text)
    → response_header zero_response seq errmsg ≡ record { seq = seq; error = errmsg; next = none }
header_fresh seq [] = refl
header_fresh seq (c ∷ s) = refl

obtained_fresh : (f : FreeList Response) → (obtain f).1.cells (obtain f).0 ≡ zero_response
obtained_fresh f = rw (obtain-zeroed f (obtain f).0, nat_eq_refl (obtain f).0)

module _ {C : Type 0} (codec : ServerCodec C) where
  -- The response to a request goes to the codec once, with the request's number, exactly the error
  -- text given, whatever an earlier response in the same object had, and the reply, or an empty
  -- struct where there is an error text.
  pub send_response-codec :
      (server : BasicServer) (c : C) (req : ℕ) (reply : Value) (errmsg : Text)
      → (send_response codec server c req reply errmsg).1
        ≡ (codec.write_response c
            (record { seq = (server.free_req.cells req).seq; error = errmsg; next = none })
            (elim errmsg [ [] ↦ reply | x ∷ s ↦ empty_struct ])).0
  unfolding send_response
  send_response-codec server c req reply errmsg = rw (obtained_fresh server.free_resp, header_fresh)
