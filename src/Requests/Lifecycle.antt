-- ===== src/Requests/Lifecycle.antt =====
-- The life of a request over any sequence of calls: it is resolved at most once, a resolver never
-- blocks, and what Wait hands over is the resolution.
use mathlib.Core.Option
use homura.Bytes.{Bytes, bytes_dec}
use homura.Decimal.{decimal}
use homura.Prelude.Dict.{get, put, get-put, get-put_self}
use homura.Prelude.{
  ℕ, ◌+◌, ◌≡◌, ◌≢◌, refl, Bool, true, false, [], Option, none, some, arith, Option-cases, inl, inr,
  ◌⊎◌,
}
use homura.Requests.Valid.{
  IsValid, create-IsValid, approve-IsValid, deny-IsValid, close_all-IsValid, wait-IsValid,
  approve-pending, deny-pending, approve-other, deny-other, pending-cases, get-close_each,
  wait-found, agrees,
}
use homura.Requests.{
  RequestStatus, pending, approved, denied, RequestResult, PathRequest, RequestQueue, find, receive,
  wait, create, approve, deny, is_pending, close_request, close_all, done, stuck, already_resolved,
  ResultChan, full,
}

-- A call on the queue; `wait` takes the result if there is one.
pub data Call : Type 0 where
  create_call : Bytes → Bool → ℕ → ℕ → Call
  approve_call : Bytes → Call
  deny_call : Bytes → Bytes → Call
  wait_call : Bytes → Call
  close_call : Call

abbrev after_wait : RequestQueue → Option (RequestResult × RequestQueue) → RequestQueue
after_wait rq none = rq
after_wait rq (some (r, rq')) = rq'

unfoldable pub run : RequestQueue → Call → RequestQueue
run rq (create_call path ro pid now) = (create rq path ro pid now).0
run rq (approve_call id) = (approve rq id).0
run rq (deny_call id reason) = (deny rq id reason).0
run rq (wait_call id) = after_wait rq (wait rq id)
run rq close_call = close_all rq

-- Create, Approve, Deny, Wait and CloseAll keep the queue valid: ids beyond the sequence number
-- are unused, requests stand under their id, and each channel agrees with the request's status.
pub run-IsValid : (rq : RequestQueue) (c : Call) → IsValid rq → IsValid (run rq c)
unfolding run
run-IsValid rq (create_call path ro pid now) ok = create-IsValid rq path ro pid now ok
run-IsValid rq (approve_call id) ok = approve-IsValid rq id ok
run-IsValid rq (deny_call id reason) ok = deny-IsValid rq id reason ok
run-IsValid rq (wait_call id) ok = elim (Option-cases (wait rq id)) [
  | inl blocked ↦ rw blocked ok
  | inr ((r, rq'), got) ↦ rw got (wait-IsValid rq rq' id r ok got)
]
run-IsValid rq close_call ok = close_all-IsValid rq ok

-- On a valid queue the send of Approve and of Deny never blocks and never hits a closed channel.
pub resolvers-ne-stuck :
    (rq : RequestQueue) (id reason : Bytes)
    → IsValid rq
    → ((approve rq id).1 ≢ stuck) × ((deny rq id reason).1 ≢ stuck)
unfolding approve deny
resolvers-ne-stuck rq id reason ok = elim (Option-cases (find rq id)) [
  | inl missing ↦ ground arith
  | inr (req, found) ↦ elim (pending-cases req.status) [
    | inl p ↦
        ground
          (arith, approve-pending rq id req ok found p, deny-pending rq id reason req ok found p)
    | inr n ↦ ground arith
  ]
]

module _ (rq : RequestQueue) (id : Bytes) (req : PathRequest) (ok : IsValid rq)
    (found : find rq id ≡ some req) (res : is_pending req.status ≡ false) where
  -- A write at the key of a pending request is elsewhere.
  get-put_pending :
      (j : Bytes) (old new : PathRequest)
      → find rq j ≡ some old
      → old.status ≡ pending
      → get bytes_dec (put bytes_dec rq.requests j new) id ≡ some req
  get-put_pending j old new f p = ground (arith, get-put bytes_dec rq.requests j new id)

  find-create :
      (path : Bytes) (ro : Bool) (pid now : ℕ) → find (create rq path ro pid now).0 id ≡ some req
  unfolding create
  find-create path ro pid now = ground (
    arith,
    ok.unused (rq.sequence + 1) (omega arith),
    get-put bytes_dec rq.requests (decimal (rq.sequence + 1)) (create rq path ro pid now).1 id,
  )

  find-approve : (j : Bytes) → find (approve rq j).0 id ≡ some req
  find-approve j = elim (Option-cases (find rq j)) [
    | inl missing ↦ rw (approve-other rq j (λ r f. absurd (cc))) found
    | inr (old, f) ↦ elim (pending-cases old.status) [
      | inl p ↦ rw (approve-pending rq j old ok f p) (get-put_pending j old _ f p)
      | inr n ↦ rw (approve-other rq j (λ r f'. ground arith)) found
    ]
  ]

  find-deny : (j reason : Bytes) → find (deny rq j reason).0 id ≡ some req
  find-deny j reason = elim (Option-cases (find rq j)) [
    | inl missing ↦ rw (deny-other rq j reason (λ r f. absurd (cc))) found
    | inr (old, f) ↦ elim (pending-cases old.status) [
      | inl p ↦ rw (deny-pending rq j reason old ok f p) (get-put_pending j old _ f p)
      | inr n ↦ rw (deny-other rq j reason (λ r f'. ground arith)) found
    ]
  ]

  find-close_all : find (close_all rq) id ≡ some req
  unfolding close_all close_request
  find-close_all = ground (arith, get-close_each rq.requests id)

  -- A resolved request of a valid queue stays in it with its status, whichever of Create,
  -- Approve, Deny, Wait or CloseAll is called next.
  pub run-keeps_resolved :
      (c : Call)
      → (req' : PathRequest) × (find (run rq c) id ≡ some req') × (req'.status ≡ req.status)
  unfolding run
  run-keeps_resolved (create_call path ro pid now) = (req, find-create path ro pid now, refl)
  run-keeps_resolved (approve_call j) = (req, find-approve j, refl)
  run-keeps_resolved (deny_call j reason) = (req, find-deny j reason, refl)
  run-keeps_resolved (wait_call j) = elim (Option-cases (wait rq j)) [
    | inl blocked ↦ rw blocked (req, found, refl)
    | inr ((r, rq'), got) ↦
        let (old, ch, f, rec, e) = wait-found rq rq' j r got in rw (got, e) (after old ch f)
  ]
    where
      after :
          (old : PathRequest) (ch : ResultChan)
          → find rq j ≡ some old
          → (req' : PathRequest) × (get bytes_dec
                (put bytes_dec rq.requests j (record old { result_chan = ch }))
                id
              ≡ some req')
            × (req'.status ≡ req.status)
      after old ch f = elim (bytes_dec j id) [
        | yes e ↦ (
          record old { result_chan = ch },
          ground (arith, get-put bytes_dec rq.requests j (record old { result_chan = ch }) id),
          ground arith,
        )
        | no n ↦ (
          req,
          ground (arith, get-put bytes_dec rq.requests j (record old { result_chan = ch }) id),
          refl,
        )
      ]
  run-keeps_resolved close_call = (req, find-close_all, refl)

result_agrees :
    (st : RequestStatus) (ch ch' : ResultChan) (r : RequestResult)
    → agrees st ch ≡ true
    → receive ch ≡ some (r, ch')
    → (st ≡ approved) × (r.approved ≡ true) ⊎ (st ≡ denied) × (r.approved ≡ false)
unfolding receive
result_agrees st ch ch' r a h = ground arith

-- On a valid queue, a result that Wait hands over belongs to a request that has been resolved:
-- it is approved where the status is approved, and not approved where the status is denied.
pub wait-resolution :
    (rq rq' : RequestQueue) (id : Bytes) (r : RequestResult)
    → IsValid rq
    → wait rq id ≡ some (r, rq')
    → (req : PathRequest) × (find rq id ≡ some req)
      × ((req.status ≡ approved) × (r.approved ≡ true)
          ⊎ (req.status ≡ denied) × (r.approved ≡ false))
wait-resolution rq rq' id r ok h =
    let (req, ch, found, got, e) = wait-found rq rq' id r h in
    (req, found, result_agrees req.status req.result_chan ch r (ok.sound id req found).agreed got)

wait-full :
    (rq : RequestQueue) (id : Bytes) (req : PathRequest) (r : RequestResult)
    → find rq id ≡ some req
    → req.result_chan ≡ full r
    → Option.map (λ w. w.0) (wait rq id) ≡ some r
unfolding wait receive
wait-full rq id req r found c = ground arith

approve-resolved :
    (rq : RequestQueue) (id : Bytes) (req : PathRequest)
    → find rq id ≡ some req
    → is_pending req.status ≡ false
    → approve rq id ≡ (rq, already_resolved req.status)
unfolding approve
approve-resolved rq id req found n = ground arith

deny-resolved :
    (rq : RequestQueue) (id reason : Bytes) (req : PathRequest)
    → find rq id ≡ some req
    → is_pending req.status ≡ false
    → deny rq id reason ≡ (rq, already_resolved req.status)
unfolding deny
deny-resolved rq id reason req found n = ground arith

-- Approve of a pending request of a valid queue succeeds, its waiter then receives an approval,
-- and a second Approve is refused as already approved and changes nothing.
pub wait-approve :
    (rq : RequestQueue) (id : Bytes) (req : PathRequest)
    → IsValid rq
    → find rq id ≡ some req
    → req.status ≡ pending
    → ((approve rq id).1 ≡ done)
      × (Option.map (λ w. w.0) (wait (approve rq id).0 id)
          ≡ some (record { approved = true; reason = [] }))
      × (approve (approve rq id).0 id ≡ ((approve rq id).0, already_resolved approved))
wait-approve rq id req ok found p =
    let r : RequestResult = record { approved = true; reason = [] } in
    let new : PathRequest = record req { status = approved; result_chan = full r } in
    let there = get-put_self bytes_dec rq.requests id new in
    rw (approve-pending rq id req ok found p)
      (refl, wait-full _ id new r there refl, approve-resolved _ id new there refl)

-- Deny of a pending request of a valid queue succeeds, its waiter then receives a refusal with
-- the reason, and a second Deny is refused as already denied and changes nothing.
pub wait-deny :
    (rq : RequestQueue) (id reason again : Bytes) (req : PathRequest)
    → IsValid rq
    → find rq id ≡ some req
    → req.status ≡ pending
    → ((deny rq id reason).1 ≡ done)
      × (Option.map (λ w. w.0) (wait (deny rq id reason).0 id)
          ≡ some (record { approved = false; reason = reason }))
      × (deny (deny rq id reason).0 id again ≡ ((deny rq id reason).0, already_resolved denied))
wait-deny rq id reason again req ok found p =
    let r : RequestResult = record { approved = false; reason = reason } in
    let new : PathRequest = record req {
      status = denied;
      denial_reason = reason;
      result_chan = full r;
    } in
    let there = get-put_self bytes_dec rq.requests id new in
    rw (deny-pending rq id reason req ok found p)
      (refl, wait-full _ id new r there refl, deny-resolved _ id again new there refl)
