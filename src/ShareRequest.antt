-- ===== src/ShareRequest.antt =====
-- 9pvm-request/main.go: the command of the guest that asks for a path of the host.
pub mod Words
pub mod Written
pub mod Handed
mod Tests
use homura.Bytes.{Bytes, bytes_dec, codes}
use homura.Git.{starts_with, trim_prefix}
use homura.Paths.{extend}
use homura.Prelude.{
  ℕ, Bool, true, false, ◌||◌, Option, none, some, List, [], ◌∷◌, ◌++◌, if◌then◌else◌, ite, leb,
  length, drop,
}
use homura.Vm.Dirs.{is_space}

-- The pieces between bytes of ASCII white space.
unfoldable pub split_spaces : Bytes → List Bytes
unfolding extend
split_spaces [] = [] ∷ []
split_spaces (c ∷ s) = let rest = split_spaces s in if is_space c then [] ∷ rest else extend c rest

unfoldable pub drop_empty : List Bytes → List Bytes
drop_empty [] = []
drop_empty ([] ∷ words) = drop_empty words
drop_empty ((c ∷ w) ∷ words) = (c ∷ w) ∷ drop_empty words

-- strings.Fields, of a text whose white space is ASCII; the other white space of Unicode splits nothing
-- here.
unfoldable pub fields : Bytes → List Bytes
unfolding split_spaces drop_empty
fields s = drop_empty (split_spaces s)

-- The four variables of readKernelParams.
pub record KernelParams : Type 0 where
  pub virtiofs_token : Bytes
  pub virtiofs_port : Bytes
  pub p9_token : Bytes
  pub p9_port : Bytes

abbrev pub no_params : KernelParams
no_params = record { virtiofs_token = []; virtiofs_port = []; p9_token = []; p9_port = [] }

-- One round of its loop.
unfoldable pub take_part : KernelParams → Bytes → KernelParams
unfolding starts_with trim_prefix
take_part p part =
    if starts_with (codes "virtiofs.token=") part
    then record p { virtiofs_token = trim_prefix part (codes "virtiofs.token=") }
    else if starts_with (codes "virtiofs.port=") part
    then record p { virtiofs_port = trim_prefix part (codes "virtiofs.port=") }
    else if starts_with (codes "p9.token=") part
    then record p { p9_token = trim_prefix part (codes "p9.token=") }
    else if starts_with (codes "p9.port=") part
    then record p { p9_port = trim_prefix part (codes "p9.port=") }
    else p

unfoldable pub take_parts : KernelParams → List Bytes → KernelParams
unfolding take_part
take_parts p [] = p
take_parts p (part ∷ parts) = take_parts (take_part p part) parts

pub data ParamError : Type 0 where
  no_cmdline incomplete_virtiofs incomplete_9p no_sharing : ParamError

-- The share mode, the token and the port.
pub record Params : Type 0 where
  pub share_mode : Bytes
  pub token : Bytes
  pub port : Bytes

-- What readKernelParams returns.
pub data Reading : Type 0 where
  readable : Params → Reading
  unreadable : ParamError → Reading

-- The tests of readKernelParams for the two modes.
unfoldable pub only_9p : Bytes → Bytes → Bool → Reading
only_9p (c ∷ token) (d ∷ port) half =
    readable (record { share_mode = codes "9p"; token = c ∷ token; port = d ∷ port })
only_9p [] [] true = unreadable incomplete_virtiofs
only_9p [] (d ∷ port) true = unreadable incomplete_virtiofs
only_9p (c ∷ token) [] true = unreadable incomplete_virtiofs
only_9p [] [] false = unreadable no_sharing
only_9p [] (d ∷ port) false = unreadable incomplete_9p
only_9p (c ∷ token) [] false = unreadable incomplete_9p

unfoldable pub choose : KernelParams → Bytes → Bytes → Reading
unfolding only_9p
choose p (c ∷ token) (d ∷ port) =
    readable (record { share_mode = codes "virtiofs"; token = c ∷ token; port = d ∷ port })
choose p (c ∷ token) [] = only_9p p.p9_token p.p9_port true
choose p [] (d ∷ port) = only_9p p.p9_token p.p9_port true
choose p [] [] = only_9p p.p9_token p.p9_port false

-- readKernelParams, by what /proc/cmdline holds
unfoldable pub read_kernel_params : Option Bytes → Reading
unfolding fields take_parts choose
read_kernel_params none = unreadable no_cmdline
read_kernel_params (some cmdline) =
    let p = take_parts no_params (fields cmdline) in choose p p.virtiofs_token p.virtiofs_port

-- How the command ends before it asks, or what it asks for.
pub data Start : Type 0 where
  usage_asked usage_missing not_absolute whole_mount : Start
  no_kernel_params : ParamError → Start
  asks : Bytes → Bool → Params → Start

abbrev pub mount_prefix : Bytes
mount_prefix = codes "/mnt/host"

abbrev pub is_text : Bytes → Bytes → Bool
unfolding bytes_dec
is_text a b = ite (bytes_dec a b) true false

-- The path without the mount point of the host's files; without one, it is the mount point.
unfoldable pub strip_mount : Bytes → Option Bytes
unfolding starts_with trim_prefix bytes_dec
strip_mount path =
    if starts_with (codes "/mnt/host/") path
    then some (trim_prefix path mount_prefix)
    else if is_text path mount_prefix
    then none
    else some path

-- The second argument.
unfoldable pub is_read_only : List Bytes → Bool
unfolding bytes_dec
is_read_only [] = false
is_read_only (a ∷ args) = is_text a (codes "ro")

unfoldable pub ask_with : Bytes → Bool → Reading → Start
ask_with path read_only (readable params) = asks path read_only params
ask_with path read_only (unreadable e) = no_kernel_params e

unfoldable pub ask_for : List Bytes → Option Bytes → Option Bytes → Start
unfolding is_read_only ask_with read_kernel_params
ask_for args cmdline none = whole_mount
ask_for args cmdline (some path) = ask_with path (is_read_only args) (read_kernel_params cmdline)

-- main, up to the request, by the arguments and by what /proc/cmdline holds
unfoldable pub main : List Bytes → Option Bytes → Start
unfolding strip_mount ask_for starts_with bytes_dec
main [] cmdline = usage_missing
main (path ∷ args) cmdline =
    if is_text path (codes "-h") || is_text path (codes "--help") || is_text path (codes "help")
    then usage_asked
    else if starts_with (codes "/") path
    then ask_for args cmdline (strip_mount path)
    else not_absolute

-- What a server answers: an approved path, or an error.
pub data HostAnswer : Type 0 where
  exposed : Bytes → HostAnswer
  no_connection no_answer bad_answer not_approved unexpected_status : HostAnswer
  server_error : ℕ → HostAnswer
  denied : Bytes → HostAnswer

-- VirtiofsResponse, less what is not read
pub record VirtiofsResponse : Type 0 where
  pub path : Bytes
  pub status : Bytes
  pub deny_reason : Bytes

unfoldable pub virtiofs_status : Option VirtiofsResponse → HostAnswer
unfolding bytes_dec
virtiofs_status none = bad_answer
virtiofs_status (some r) =
    if is_text r.status (codes "approved")
    then exposed r.path
    else if is_text r.status (codes "denied")
    then denied r.deny_reason
    else unexpected_status

-- requestViaVirtiofs, by the status code and the body that net/http gives, and json.Unmarshal
unfoldable pub request_via_virtiofs :
    (Bytes → Option VirtiofsResponse) → Option (ℕ × Option Bytes) → HostAnswer
unfolding virtiofs_status
request_via_virtiofs unmarshal none = no_connection
request_via_virtiofs unmarshal (some (code, none)) = no_answer
request_via_virtiofs unmarshal (some (code, some body)) =
    if leb 400 code then server_error code else virtiofs_status (unmarshal body)

-- RPCResponse: the message of an error, and the result as RequestResult where it is one.
pub record RpcResponse : Type 0 where
  pub error : Option Bytes
  pub result : Option (Bool × Bytes)

unfoldable pub rpc_result : Option (Bool × Bytes) → HostAnswer
rpc_result none = bad_answer
rpc_result (some (true, path)) = exposed path
rpc_result (some (false, path)) = not_approved

unfoldable pub rpc_answer : Option RpcResponse → HostAnswer
unfolding rpc_result
rpc_answer none = bad_answer
rpc_answer (some r) = elim r.error [ some message ↦ denied message | none ↦ rpc_result r.result ]

-- requestVia9p, by the line that the control server answers, and json.Unmarshal
unfoldable pub request_via_9p : (Bytes → Option RpcResponse) → Option (Option Bytes) → HostAnswer
unfolding rpc_answer
request_via_9p unmarshal none = no_connection
request_via_9p unmarshal (some none) = no_answer
request_via_9p unmarshal (some (some line)) = rpc_answer (unmarshal line)
