-- ===== src/Control/Run.antt =====
-- The rest of the handlers, handleRequest, and the server as a machine that takes one event after
-- another: a request on either socket, or a blocked handler that tries to go on.
use homura.Bytes.{Bytes, bytes_dec, codes}
use homura.Control.{
  RpcRequest, authentication_failed, method_not_found, invalid_params, request_id_required,
  approve_failed, deny_failed, request_denied, request_approved, requests, approved_request,
  denied_request, ControlServer, Host, Waiting, Answer, respond, block, text_params, deny_params,
  authenticate_request, fails, answers, answer_added, handle_expose, handle_unexpose, handle_list,
  handle_status, handle_request_method,
}
use homura.Prelude.{ℕ, zero, suc, Bool, List, [], ◌∷◌, ◌++◌, Option, none, some, ite, if◌then◌else◌}
use homura.Registry.{add_path}
use homura.Requests.{Reply, done, RequestQueue, RequestResult, wait, approve, deny, list_requests}

-- handleReqList
unfoldable pub handle_req_list : Host → RpcRequest → Host × Answer
handle_req_list h req = answers h req (requests (list_requests h.queue))

unfoldable pub answer_approved : Host → RpcRequest → RequestQueue × Reply → Host × Answer
answer_approved h req (queue, done) = answers (record h { queue = queue }) req approved_request
answer_approved h req (queue, other) = fails (record h { queue = queue }) req (approve_failed other)

-- handleReqApprove
unfoldable pub handle_req_approve : Host → RpcRequest → Host × Answer
unfolding answer_approved
handle_req_approve h req = elim (text_params (codes "request_id") req.params) [
  | none ↦ fails h req invalid_params
  | some id ↦
      ite (bytes_dec id []) (fails h req request_id_required)
        (answer_approved h req (approve h.queue id))
]

unfoldable pub answer_denied : Host → RpcRequest → RequestQueue × Reply → Host × Answer
answer_denied h req (queue, done) = answers (record h { queue = queue }) req denied_request
answer_denied h req (queue, other) = fails (record h { queue = queue }) req (deny_failed other)

-- The reason of a denial, where none is given.
unfoldable pub reason_or_default : Bytes → Bytes
reason_or_default [] = codes "Denied by user"
reason_or_default (c ∷ s) = c ∷ s

-- handleReqDeny
unfoldable pub handle_req_deny : Host → RpcRequest → Host × Answer
unfolding answer_denied reason_or_default
handle_req_deny h req = elim (deny_params req.params) [
  | none ↦ fails h req invalid_params
  | some (id, reason) ↦
      ite (bytes_dec id []) (fails h req request_id_required)
        (answer_denied h req (deny h.queue id (reason_or_default reason)))
]

-- The switch of handleRequest.
unfoldable pub dispatch : (Bytes → Bool) → ℕ → ControlServer → Host → RpcRequest → Host × Answer
unfolding handle_req_list handle_req_approve handle_req_deny
dispatch stat now cs h req =
    ite (bytes_dec req.method (codes "expose")) (handle_expose stat h req) (
      ite (bytes_dec req.method (codes "unexpose")) (handle_unexpose h req) (
        ite (bytes_dec req.method (codes "list")) (handle_list h req) (
          ite (bytes_dec req.method (codes "status")) (handle_status cs h req) (
            ite (bytes_dec req.method (codes "request")) (handle_request_method now cs h req) (
              ite (bytes_dec req.method (codes "req-list")) (handle_req_list h req) (
                ite (bytes_dec req.method (codes "req-approve")) (handle_req_approve h req) (
                  ite (bytes_dec req.method (codes "req-deny")) (handle_req_deny h req)
                    (fails h req (method_not_found req.method)))))))))

-- handleRequest
unfoldable pub handle_request :
    (Bytes → Bool) → ℕ → ControlServer → Host → RpcRequest → Host × Answer
handle_request stat now cs h req = elim (authenticate_request cs req) [
  | some e ↦ fails h req (authentication_failed e)
  | none ↦ dispatch stat now cs h req
]

-- A blocked handler as the request that it answers.
abbrev pub request_of : Waiting → RpcRequest
request_of w = record { method = codes "request"; params = none; id = w.id }

-- handleRequestMethod after its Wait.
unfoldable pub conclude : (Bytes → Bool) → Host → Waiting → RequestResult → Host × Answer
unfolding answer_added
conclude stat h w r =
    if r.approved
    then answer_added h (request_of w) (request_approved w.path w.read_only)
        (add_path stat h.registry w.path w.read_only)
    else fails h (request_of w) (request_denied r.reason)

-- The blocked handler goes on if its request has a result.
unfoldable pub resume : (Bytes → Bool) → Host → Waiting → Option (Host × Answer)
resume stat h w = elim (wait h.queue w.request_id) [
  | none ↦ none
  | some (r, queue) ↦ some (conclude stat (record h { queue = queue }) w r)
]

pub record World : Type 0 where
  pub host : Host
  pub waiting : List Waiting

pub data Event : Type 0 where
  on_unix on_tcp : ℕ → RpcRequest → Event
  wake : ℕ → Event

-- A handler that blocks joins the blocked ones.
unfoldable pub settle_answer : List Waiting → Host × Answer → World
settle_answer ws (h, respond r) = record { host = h; waiting = ws }
settle_answer ws (h, block w) = record { host = h; waiting = ws ++ (w ∷ []) }

abbrev pub pick : List Waiting → ℕ → Option Waiting
pick [] n = none
pick (w ∷ ws) zero = some w
pick (w ∷ ws) (suc n) = pick ws n

abbrev pub drop_at : List Waiting → ℕ → List Waiting
drop_at [] n = []
drop_at (w ∷ ws) zero = ws
drop_at (w ∷ ws) (suc n) = w ∷ drop_at ws n

module _ (stat : Bytes → Bool) (unix tcp : ControlServer) where
  unfoldable pub wake_at : World → ℕ → World
  unfolding settle_answer
  wake_at s n = elim (pick s.waiting n) [
    | none ↦ s
    | some w ↦ elim (resume stat s.host w) [
      | none ↦ s
      | some a ↦ settle_answer (drop_at s.waiting n) a
    ]
  ]

  unfoldable pub step : World → Event → World
  unfolding wake_at settle_answer
  step s (on_unix now req) = settle_answer s.waiting (handle_request stat now unix s.host req)
  step s (on_tcp now req) = settle_answer s.waiting (handle_request stat now tcp s.host req)
  step s (wake n) = wake_at s n

  unfoldable pub run : World → List Event → World
  unfolding step
  run s [] = s
  run s (e ∷ es) = run (step s e) es
