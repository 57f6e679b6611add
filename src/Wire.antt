-- ===== src/Wire.antt =====
-- server.go, client.go: the headers and errors that cross the wire, and the Go values that stand in
-- messages, arguments and replies.
use birpc.Base.{◌%◌, ◌^◌, ℕ, Option, none, [], Bool}
use birpc.Base.Text.{Text, codes}

-- `reflect.Type`: name and package path (both empty for a type literal), and what its kind holds.
-- `other_type` stands for every kind whose parts the code never asks for, told apart by a number.
pub data GoType : Type 0 where
  pointer_type : (type_name pkg : Text) → GoType → GoType
  map_type : (type_name pkg : Text) → (key item : GoType) → GoType
  slice_type : (type_name pkg : Text) → GoType → GoType
  other_type : (type_name pkg : Text) → ℕ → GoType

-- A value in an interface or a `reflect.Value`. `plain` stands for every value that the code passes
-- on unread, told apart by a number; `zero_of` for the zero value of a type. The flag of
-- `cancel_args` says whether the field `pending` is set; a connection has one `Pending`.
pub data Value : Type 0 where
  nil_value : Value
  empty_struct : Value
  plain : ℕ → Value
  zero_of : GoType → Value
  empty_map : Value
  empty_slice : Value
  pointer_to : Value → Value
  cancel_args : (seq : ℕ) → (linked : Bool) → Value

-- A non-nil `error`. Package variables are compared by identity and have a constructor each;
-- `server_error` is the type ServerError, and `plain_error` the result of errors.New or fmt.Errorf
-- with its text. `io_error` is an error of the connection or of a decoder.
pub data Err : Type 0 where
  eof unexpected_eof err_shutdown canceled deadline_exceeded err_missing_params : Err
  server_error : Text → Err
  plain_error : Text → Err
  io_error : ℕ → Text → Err

-- the method Error of an error
unfoldable pub message : Err → Text
message eof = codes "EOF"
message unexpected_eof = codes "unexpected EOF"
message err_shutdown = codes "connection is shut down"
message canceled = codes "context canceled"
message deadline_exceeded = codes "context deadline exceeded"
message err_missing_params = codes "jsonrpc: request body missing params"
message (server_error s) = s
message (plain_error s) = s
message (io_error n s) = s

pub record Request : Type 0 where
  pub service_method : Text
  pub seq : ℕ
  pub next : Option ℕ

pub record Response : Type 0 where
  pub seq : ℕ
  pub error : Text
  pub next : Option ℕ

abbrev pub zero_request : Request
zero_request = record { service_method = []; seq = 0; next = none }

abbrev pub zero_response : Response
zero_response = record { seq = 0; error = []; next = none }

-- uint64
abbrev pub u64 : ℕ → ℕ
u64 n = n % 2 ^ 64

-- The value sent in place of a reply with an error.
abbrev pub invalid_request : Value
invalid_request = empty_struct
