-- ===== src/Requests.antt =====
-- 9passthrough/requests.go: the queue of path requests. The lock is left out: every method runs under
-- it. A request is shared by pointer between the map and the handler that waits for it: a holder has
-- its key. `now` is the time of the call.
pub mod Valid
pub mod Lifecycle
mod Tests
use homura.Bytes.{Bytes, bytes_dec, codes}
use homura.Decimal.{decimal}
use homura.Prelude.Dict.{get, put}
use homura.Prelude.{ℕ, ◌+◌, Bool, true, false, List, [], ◌∷◌, Option, none, some, if◌then◌else◌}

pub data RequestStatus : Type 0 where
  pending approved denied : RequestStatus

pub record RequestResult : Type 0 where
  pub approved : Bool
  pub reason : Bytes

-- A Go channel of capacity 1: open with an empty or a full buffer, or closed.
pub data ResultChan : Type 0 where
  empty : ResultChan
  full : RequestResult → ResultChan
  closed : ResultChan

pub record PathRequest : Type 0 where
  pub id : Bytes
  pub path : Bytes
  pub read_only : Bool
  pub requested_at : ℕ
  pub status : RequestStatus
  pub vm_pid : ℕ
  pub denial_reason : Bytes
  pub result_chan : ResultChan

pub record RequestQueue : Type 0 where
  pub requests : List (Bytes × PathRequest)
  pub sequence : ℕ

abbrev pub new_request_queue : RequestQueue
new_request_queue = record { requests = []; sequence = 0 }

abbrev pub find : RequestQueue → Bytes → Option PathRequest
find rq id = get bytes_dec rq.requests id

-- `ch <- r`: `none` where the send blocks (a full buffer) or panics (a closed channel).
unfoldable pub send : ResultChan → RequestResult → Option ResultChan
send empty r = some (full r)
send (full s) r = none
send closed r = none

-- `<-ch`: `none` where the receive blocks; a closed channel gives the zero value.
unfoldable pub receive : ResultChan → Option (RequestResult × ResultChan)
receive empty = none
receive (full r) = some (r, empty)
receive closed = some (record { approved = false; reason = [] }, closed)

-- Wait under a context that is never done, as the handler's; `none` while it blocks.
unfoldable pub wait : RequestQueue → Bytes → Option (RequestResult × RequestQueue)
wait rq id = elim (find rq id) [
  | none ↦ none
  | some req ↦ elim (receive req.result_chan) [
    | none ↦ none
    | some (r, ch) ↦
        some (
          r,
          record rq { requests = put bytes_dec rq.requests id (record req { result_chan = ch }) },
        )
  ]
]

-- Create, with the id that generateID makes.
unfoldable pub create : RequestQueue → Bytes → Bool → ℕ → ℕ → RequestQueue × PathRequest
create rq path read_only vm_pid now =
    let sequence = rq.sequence + 1 in
    let req : PathRequest = record {
      id = decimal sequence;
      path = path;
      read_only = read_only;
      requested_at = now;
      status = pending;
      vm_pid = vm_pid;
      denial_reason = [];
      result_chan = empty;
    } in
    (record { requests = put bytes_dec rq.requests req.id req; sequence = sequence }, req)

abbrev pub is_pending : RequestStatus → Bool
is_pending pending = true
is_pending approved = false
is_pending denied = false

unfoldable pub pending_of : List (Bytes × PathRequest) → List PathRequest
pending_of [] = []
pending_of ((k, r) ∷ m) = if is_pending r.status then r ∷ pending_of m else pending_of m

-- List
unfoldable pub list_requests : RequestQueue → List PathRequest
unfolding pending_of
list_requests rq = pending_of rq.requests

-- The answers of Approve and Deny; `stuck` is a send that does not return.
pub data Reply : Type 0 where
  done not_found stuck : Reply
  already_resolved : RequestStatus → Reply

-- The request with its new status, and the send to its channel.
unfoldable pub resolve : RequestQueue → Bytes → PathRequest → RequestResult → RequestQueue × Reply
resolve rq id req r = elim (send req.result_chan r) [
  | none ↦ (record rq { requests = put bytes_dec rq.requests id req }, stuck)
  | some ch ↦ (
    record rq { requests = put bytes_dec rq.requests id (record req { result_chan = ch }) },
    done,
  )
]

-- Approve
unfoldable pub approve : RequestQueue → Bytes → RequestQueue × Reply
unfolding resolve
approve rq id = elim (find rq id) [
  | none ↦ (rq, not_found)
  | some req ↦
      if is_pending req.status
      then resolve rq id (record req { status = approved })
          (record { approved = true; reason = [] })
      else (rq, already_resolved req.status)
]

-- Deny
unfoldable pub deny : RequestQueue → Bytes → Bytes → RequestQueue × Reply
unfolding resolve
deny rq id reason = elim (find rq id) [
  | none ↦ (rq, not_found)
  | some req ↦
      if is_pending req.status
      then resolve rq id (record req { status = denied; denial_reason = reason })
          (record { approved = false; reason = reason })
      else (rq, already_resolved req.status)
]

-- One round of CloseAll.
unfoldable pub close_request : PathRequest → PathRequest
close_request req =
    if is_pending req.status
    then record req {
      status = denied;
      denial_reason = codes "Server shutdown";
      result_chan = closed;
    }
    else req

unfoldable pub close_each : List (Bytes × PathRequest) → List (Bytes × PathRequest)
unfolding close_request
close_each [] = []
close_each ((k, r) ∷ m) = (k, close_request r) ∷ close_each m

-- CloseAll
unfoldable pub close_all : RequestQueue → RequestQueue
unfolding close_each
close_all rq = record rq { requests = close_each rq.requests }
