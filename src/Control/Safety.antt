-- ===== src/Control/Safety.antt =====
-- What the TCP socket, which the guest can reach, can bring about.
use homura.Bytes.{Bytes, bytes_dec, codes}
use homura.Control.Run.{
  dispatch, handle_request, conclude, resume, World, Event, on_unix, on_tcp, wake, settle_answer,
  pick, drop_at, wake_at, step, run,
}
use homura.Control.{
  RpcRequest, ControlServer, Host, Waiting, Answer, respond, block, PathParams, request_params,
  authenticate_request, handle_request_method,
}
use homura.Decimal.{decimal}
use homura.Prelude.Dict.{get-put}
use homura.Prelude.{
  ℕ, ◌≡◌, ◌≢◌, refl, Bool, false, List, [], ◌∷◌, none, some, arith, Option-cases, inl, inr, ◌∙◌,
  ◌+◌,
}
use homura.Requests.Valid.{IsValid, create-IsValid, wait-IsValid, wait-found}
use homura.Requests.Lifecycle.{wait-resolution}
use homura.Requests.{RequestQueue, PathRequest, approved, RequestResult, find, create, wait}

-- A request that the TCP server lets through has the method request and well-formed parameters
-- with the server's token.
pub authenticate_request-tcp :
    (cs : ControlServer) (req : RpcRequest)
    → cs.is_unix_socket ≡ false
    → authenticate_request cs req ≡ none
    → (req.method ≡ codes "request")
      × (p : PathParams) × (request_params req.params ≡ some p)
      × (p.token ≡ cs.auth_token)
unfolding authenticate_request
authenticate_request-tcp cs req tcp ok = elim (Option-cases (request_params req.params)) [
  | inl bad ↦ absurd (ground arith)
  | inr (p, good) ↦ (ground arith, p, good, ground arith)
]

dispatch-request :
    (stat : Bytes → Bool) (now : ℕ) (cs : ControlServer) (h : Host) (req : RpcRequest)
    → req.method ≡ codes "request"
    → dispatch stat now cs h req ≡ handle_request_method now cs h req
unfolding dispatch
dispatch-request stat now cs h req m = ground arith

-- No request of the queue has been approved.
abbrev pub NoneApproved : RequestQueue → Type 0
NoneApproved rq = (id : Bytes) (req : PathRequest) → find rq id ≡ some req → req.status ≢ approved

create-NoneApproved :
    (rq : RequestQueue) (path : Bytes) (ro : Bool) (pid now : ℕ)
    → NoneApproved rq
    → NoneApproved (create rq path ro pid now).0
unfolding create
create-NoneApproved rq path ro pid now h id req f =
    let new = (create rq path ro pid now).1 in
    ground (arith, get-put bytes_dec rq.requests (decimal (rq.sequence + 1)) new id, h id req)

wait-NoneApproved :
    (rq rq' : RequestQueue) (id : Bytes) (r : RequestResult)
    → NoneApproved rq
    → wait rq id ≡ some (r, rq')
    → NoneApproved rq'
wait-NoneApproved rq rq' id r h got j req f =
    let (old, ch, found, rec, e) = wait-found rq rq' id r got in
    let new : PathRequest = record old { result_chan = ch } in
    ground (arith, get-put bytes_dec rq.requests id new j, h j req, h id old found, f, e)

-- A host that has approved nothing.
pub record IsQuiet (h : Host) : Type 0 where
  pub valid : IsValid h.queue
  pub unapproved : NoneApproved h.queue

-- What is kept: the host stays quiet, with the same registry.
abbrev pub Keeps : Host → Host → Type 0
Keeps h h' = IsQuiet h' × (h'.registry ≡ h.registry)

Keeps-same : (h h' : Host) → h' ≡ h → IsQuiet h → Keeps h h'
Keeps-same h h' e q = rw e (q, refl)

handle_request_method-Keeps :
    (now : ℕ) (cs : ControlServer) (h : Host) (req : RpcRequest)
    → IsQuiet h
    → Keeps h (handle_request_method now cs h req).0
unfolding handle_request_method
handle_request_method-Keeps now cs h req q = elim (Option-cases (request_params req.params)) [
  | inl bad ↦ Keeps-same h _ (ground arith) q
  | inr (p, good) ↦ elim (bytes_dec p.path []) [
    | yes none_given ↦ Keeps-same h _ (ground arith) q
    | no given ↦
        let queue = (create h.queue p.path p.read_only cs.vm_pid now).0 in
        let made : (handle_request_method now cs h req).0 ≡ record h { queue = queue } =
          ground arith in
        rw made (
          record {
            valid = create-IsValid h.queue p.path p.read_only cs.vm_pid now q.valid;
            unapproved = create-NoneApproved h.queue p.path p.read_only cs.vm_pid now q.unapproved;
          },
          refl,
        )
  ]
]

handle_request-Keeps :
    (stat : Bytes → Bool) (now : ℕ) (cs : ControlServer) (h : Host) (req : RpcRequest)
    → cs.is_unix_socket ≡ false
    → IsQuiet h
    → Keeps h (handle_request stat now cs h req).0
unfolding handle_request
handle_request-Keeps stat now cs h req tcp q = elim (Option-cases (authenticate_request cs req)) [
  | inr (e, refused) ↦ Keeps-same h _ (ground arith) q
  | inl ok ↦
      let (m, p, good, token) = authenticate_request-tcp cs req tcp ok in
      let same : handle_request stat now cs h req ≡ handle_request_method now cs h req =
        ground (arith, dispatch-request stat now cs h req m) in
      rw same (handle_request_method-Keeps now cs h req q)
]

-- A handler that wakes up with a refusal changes nothing but its channel.
resume-Keeps :
    (stat : Bytes → Bool) (h : Host) (w : Waiting) (a : Host × Answer)
    → IsQuiet h
    → resume stat h w ≡ some a
    → Keeps h a.0
unfolding resume conclude
resume-Keeps stat h w a q e = elim (Option-cases (wait h.queue w.request_id)) [
  | inl blocked ↦ absurd (ground arith)
  | inr ((r, queue), got) ↦
      let (req, found, res) = wait-resolution h.queue queue w.request_id r q.valid got in
      let refused : r.approved ≡ false = ground (arith, q.unapproved w.request_id req found, res) in
      let quiet : IsQuiet (record h { queue = queue }) = record {
        valid = wait-IsValid h.queue queue w.request_id r q.valid got;
        unapproved = wait-NoneApproved h.queue queue w.request_id r q.unapproved got;
      } in
      let same : a.0 ≡ record h { queue = queue } = ground arith in rw same (quiet, refl)
]

settle_answer-host : (ws : List Waiting) (a : Host × Answer) → (settle_answer ws a).host ≡ a.0
unfolding settle_answer
settle_answer-host ws (h, respond r) = refl
settle_answer-host ws (h, block w) = refl

-- An event that no holder of the Unix socket takes part in.
abbrev pub FromGuest : Event → Type 0
FromGuest (on_unix now req) = ⊥
FromGuest (on_tcp now req) = Unit {0}
FromGuest (wake n) = Unit {0}

abbrev pub AllFromGuest : List Event → Type 0
AllFromGuest [] = Unit {0}
AllFromGuest (e ∷ es) = FromGuest e × AllFromGuest es

module _ (stat : Bytes → Bool) (unix tcp : ControlServer) (guest : tcp.is_unix_socket ≡ false) where
  wake_at-Keeps :
      (s : World) (n : ℕ) → IsQuiet s.host → Keeps s.host (wake_at stat unix tcp s n).host
  unfolding wake_at
  wake_at-Keeps s n q = elim (Option-cases (pick s.waiting n)) [
    | inl missing ↦ rw (missing, wake_at) (q, refl)
    | inr (w, there) ↦ elim (Option-cases (resume stat s.host w)) [
      | inl blocked ↦ rw (there, blocked, wake_at) (q, refl)
      | inr (a, got) ↦
          rw (there, got, wake_at, settle_answer-host (drop_at s.waiting n) a)
            (resume-Keeps stat s.host w a q got)
    ]
  ]

  step-Keeps :
      (s : World) (e : Event)
      → FromGuest e
      → IsQuiet s.host
      → Keeps s.host (step stat unix tcp s e).host
  unfolding step
  step-Keeps s (on_unix now req) f q = absurd f
  step-Keeps s (on_tcp now req) f q =
      rw (settle_answer-host s.waiting (handle_request stat now tcp s.host req))
        (handle_request-Keeps stat now tcp s.host req guest q)
  step-Keeps s (wake n) f q = wake_at-Keeps s n q

  -- Starting from a valid queue with no approved request, no sequence of TCP requests and wake-
  -- ups of blocked handlers changes the registry or gets a request approved, whatever the
  -- requests hold.
  pub run-from_guest :
      (s : World) (es : List Event)
      → AllFromGuest es
      → IsQuiet s.host
      → Keeps s.host (run stat unix tcp s es).host
  unfolding run
  run-from_guest s [] f q = (q, refl)
  run-from_guest s (e ∷ es) (f, fs) q =
      let (q', same) = step-Keeps s e f q in
      let (q'', rest) = run-from_guest (step stat unix tcp s e) es fs q' in (q'', rest ∙ same)
