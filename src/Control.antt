-- ===== src/Control.antt =====
-- 9passthrough/control.go: the control server's handlers over the registry and the request queue,
-- which the Unix and the TCP server share. `stat` is os.Stat, `now` the time of the call.
pub mod Run
pub mod Safety
pub mod Approval
mod Tests
use homura.Bytes.{Bytes, bytes_dec, codes}
use homura.Json.{Json, Members, members, read_string, read_bool}
use homura.Prelude.{ℕ, Bool, true, false, List, [], ◌∷◌, Option, none, some, ite, if◌then◌else◌}
use homura.Registry.{PathRegistry, PathInfo, RegistryError, add_path, remove_path, list_paths}
use homura.Requests.{
  PathRequest, RequestQueue, Reply, done, create, wait, approve, deny, list_requests,
}

pub record RpcRequest : Type 0 where
  pub method : Bytes
  pub params : Option Json
  pub id : Json

pub data AuthError : Type 0 where
  method_not_available invalid_auth_params invalid_token : AuthError

-- The errors, without the rendering of their messages.
pub data RpcError : Type 0 where
  authentication_failed : AuthError → RpcError
  method_not_found : Bytes → RpcError
  invalid_params path_required request_id_required : RpcError
  expose_failed : RegistryError → RpcError
  approve_failed deny_failed : Reply → RpcError
  request_denied : Bytes → RpcError

-- The code is the negative of this number.
unfoldable pub minus_code : RpcError → ℕ
minus_code (authentication_failed e) = 32600
minus_code (method_not_found m) = 32601
minus_code invalid_params = 32602
minus_code path_required = 32602
minus_code request_id_required = 32602
minus_code (expose_failed e) = 32000
minus_code (approve_failed r) = 32000
minus_code (deny_failed r) = 32000
minus_code (request_denied reason) = 32001

pub data RpcResult : Type 0 where
  exposed_path : Bytes → Bool → RpcResult
  unexposed_path : Bytes → RpcResult
  paths : List PathInfo → RpcResult
  status : List PathInfo → ℕ → RpcResult
  request_approved : Bytes → Bool → RpcResult
  requests : List PathRequest → RpcResult
  approved_request denied_request : RpcResult

pub data RpcBody : Type 0 where
  result : RpcResult → RpcBody
  error : RpcError → RpcBody

pub record RpcResponse : Type 0 where
  pub body : RpcBody
  pub id : Json

-- The fields of a ControlServer that its handlers read.
pub record ControlServer : Type 0 where
  pub is_unix_socket : Bool
  pub auth_token : Bytes
  pub vm_pid : ℕ
  pub connections : ℕ

-- The objects that all handlers share.
pub record Host : Type 0 where
  pub registry : PathRegistry
  pub queue : RequestQueue

-- A handler of the method "request" that blocks on its path request.
pub record Waiting : Type 0 where
  pub request_id : Bytes
  pub path : Bytes
  pub read_only : Bool
  pub id : Json

pub data Answer : Type 0 where
  respond : RpcResponse → Answer
  block : Waiting → Answer

pub record PathParams : Type 0 where
  pub path : Bytes
  pub token : Bytes
  pub read_only : Bool

infixl 5 ◌>>=◌
abbrev pub ◌>>=◌ : {A B : Type 0} → Option A → (A → Option B) → Option B
none >>= f = none
some a >>= f = f a

-- ExposeParams; RequestParams has the token as well.
unfoldable pub expose_params : Option Json → Option PathParams
expose_params p = do
  ms ← members p
  path ← read_string (codes "path") [] ms
  read_only ← read_bool (codes "readonly") false ms
  some (record { path = path; token = []; read_only = read_only })

unfoldable pub request_params : Option Json → Option PathParams
request_params p = do
  ms ← members p
  path ← read_string (codes "path") [] ms
  token ← read_string (codes "token") [] ms
  read_only ← read_bool (codes "readonly") false ms
  some (record { path = path; token = token; read_only = read_only })

-- UnexposeParams and ReqApproveParams have one field of text.
unfoldable pub text_params : Bytes → Option Json → Option Bytes
text_params name p = do ms ← members p; read_string name [] ms

-- ReqDenyParams
unfoldable pub deny_params : Option Json → Option (Bytes × Bytes)
deny_params p = do
  ms ← members p
  request_id ← read_string (codes "request_id") [] ms
  reason ← read_string (codes "reason") [] ms
  some (request_id, reason)

-- authenticateRequest
unfoldable pub authenticate_request : ControlServer → RpcRequest → Option AuthError
authenticate_request cs req =
    if cs.is_unix_socket
    then none
    else ite (bytes_dec req.method (codes "request"))
        (elim (request_params req.params) [
          | none ↦ some invalid_auth_params
          | some p ↦ ite (bytes_dec p.token cs.auth_token) none (some invalid_token)
        ])
        (some method_not_available)

abbrev fails : Host → RpcRequest → RpcError → Host × Answer
fails h req e = (h, respond (record { body = error e; id = req.id }))

abbrev answers : Host → RpcRequest → RpcResult → Host × Answer
answers h req r = (h, respond (record { body = result r; id = req.id }))

-- The answer after AddPath, with the result for its success.
unfoldable pub answer_added :
    Host → RpcRequest → RpcResult → PathRegistry × Option RegistryError → Host × Answer
answer_added h req r (reg, some e) = fails (record h { registry = reg }) req (expose_failed e)
answer_added h req r (reg, none) = answers (record h { registry = reg }) req r

-- handleExpose
unfoldable pub handle_expose : (Bytes → Bool) → Host → RpcRequest → Host × Answer
unfolding answer_added
handle_expose stat h req = elim (expose_params req.params) [
  | none ↦ fails h req invalid_params
  | some p ↦ ite (bytes_dec p.path []) (fails h req path_required) (
      answer_added h req (exposed_path p.path p.read_only)
        (add_path stat h.registry p.path p.read_only))
]

-- handleUnexpose
unfoldable pub handle_unexpose : Host → RpcRequest → Host × Answer
handle_unexpose h req = elim (text_params (codes "path") req.params) [
  | none ↦ fails h req invalid_params
  | some path ↦
      ite (bytes_dec path []) (fails h req path_required)
        (answers (record h { registry = remove_path h.registry path }) req (unexposed_path path))
]

-- handleList
unfoldable pub handle_list : Host → RpcRequest → Host × Answer
handle_list h req = answers h req (paths (list_paths h.registry))

-- handleStatus, without the uptime
unfoldable pub handle_status : ControlServer → Host → RpcRequest → Host × Answer
handle_status cs h req = answers h req (status (list_paths h.registry) cs.connections)

-- handleRequestMethod up to its Wait; the desktop notification is left out.
unfoldable pub handle_request_method : ℕ → ControlServer → Host → RpcRequest → Host × Answer
handle_request_method now cs h req = elim (request_params req.params) [
  | none ↦ fails h req invalid_params
  | some p ↦ ite (bytes_dec p.path []) (fails h req path_required) (
      let (queue, r) = create h.queue p.path p.read_only cs.vm_pid now in
      (
        record h { queue = queue },
        block (record { request_id = r.id; path = p.path; read_only = p.read_only; id = req.id }),
      ))
]
