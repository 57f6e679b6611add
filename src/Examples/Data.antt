-- ===== src/Examples/Data.antt =====
-- A program with one service, Arith, and a JSON codec, for the examples.
use birpc.Base.{ℕ, ◌&&◌, none, [], ◌∷◌, Bool, ltb, if◌then◌else◌, text_Eq}
use birpc.Base.Text.{codes}
use birpc.BasicServer.{BasicServer, go_rpc_type}
use birpc.BasicServer.Dispatch.{cancel_method}
use birpc.FreeList.{empty, Request-Linked, Response-Linked}
use birpc.Json.{Json}
use birpc.Service.{Service}
use birpc.Service.Types.{
  GoMethod, Program, MethodType, user, name_of, same_type, type_of_ctx, type_of_error,
}
use birpc.Wire.{GoType, pointer_type, other_type, plain, pointer_to}

abbrev pub upper : ℕ → Bool
upper c = ltb 64 c && ltb c 91

-- `*main.Args` and `*int`
abbrev pub args_type : GoType
args_type = pointer_type [] [] (other_type (codes "Args") (codes "main") 25)

abbrev pub int_type : GoType
int_type = pointer_type [] [] (other_type (codes "int") [] 2)

-- `*main.Arith`
abbrev pub arith_type : GoType
arith_type = pointer_type [] [] (other_type (codes "Arith") (codes "main") 25)

abbrev pub add_method : GoMethod
add_method = record {
  name = codes "Add";
  pkg_path = [];
  ins = arith_type ∷ type_of_ctx ∷ args_type ∷ int_type ∷ [];
  outs = type_of_error ∷ [];
  func = user (λ rcvr ctx argv replyv. (plain 7, none));
}

-- no context
abbrev pub old_method : GoMethod
old_method = record {
  name = codes "Old";
  pkg_path = [];
  ins = arith_type ∷ args_type ∷ int_type ∷ [];
  outs = type_of_error ∷ [];
  func = user (λ rcvr ctx argv replyv. (plain 8, none));
}

abbrev pub program : Program
program = record {
  method_set = λ t.
      if same_type t go_rpc_type
      then cancel_method ∷ []
      else if same_type t arith_type
      then add_method ∷ old_method ∷ []
      else [];
  type_string = name_of;
  is_upper = upper;
}

abbrev pub add_type : MethodType
add_type = record { func = add_method.func; arg_type = args_type; reply_type = int_type }

abbrev pub arith_service : Service
arith_service = record {
  name = codes "Arith";
  rcvr = pointer_to (plain 0);
  typ = arith_type;
  methods = (codes "Add", add_type) ∷ [];
}

abbrev pub empty_server : BasicServer
empty_server = record { service_map = []; free_req = empty; free_resp = empty }

abbrev pub arith_server : BasicServer
arith_server = record {
  service_map = (codes "Arith", arith_service) ∷ [];
  free_req = empty;
  free_resp = empty;
}

abbrev pub json : Json
json = record {
  unmarshal = λ t v. (plain 5, none);
  unmarshal_params = λ t v. (plain 5, none);
  encode_response = λ m. none;
  encode_request = λ m. none;
}
