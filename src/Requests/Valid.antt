-- ===== src/Requests/Valid.antt =====
-- The queue's invariant, and that every operation keeps it.
use mathlib.Core.Option
use homura.Bytes.{Bytes, bytes_dec}
use homura.Decimal.{decimal, decimal-injective}
use homura.Prelude.Dict.{get, put, get-put}
use homura.Prelude.{
  ℕ, ◌+◌, ◌<◌, ◌≡◌, refl, Bool, true, false, not, List, [], ◌∷◌, none, some, arith, Option-cases,
  inl, inr, subst, subst₂, ◌⊎◌,
}
use homura.Requests.{
  RequestStatus, pending, approved, denied, RequestResult, ResultChan, empty, full, closed,
  PathRequest, RequestQueue, new_request_queue, find, send, receive, wait, create, approve, deny,
  is_pending, close_request, close_each, close_all, done,
}

-- What a request's channel holds agrees with its status. An empty channel of a resolved request is
-- one whose result has been received.
abbrev pub agrees : RequestStatus → ResultChan → Bool
agrees pending empty = true
agrees pending (full r) = false
agrees pending closed = false
agrees approved empty = true
agrees approved (full r) = r.approved
agrees approved closed = false
agrees denied empty = true
agrees denied (full r) = not r.approved
agrees denied closed = true

pub record IsSound (id : Bytes) (req : PathRequest) : Type 0 where
  pub keyed : req.id ≡ id
  pub agreed : agrees req.status req.result_chan ≡ true

pub record IsValid (rq : RequestQueue) : Type 0 where
  pub unused : (n : ℕ) → rq.sequence < n → find rq (decimal n) ≡ none
  pub sound : (id : Bytes) (req : PathRequest) → find rq id ≡ some req → IsSound id req

pub new_request_queue-IsValid : IsValid new_request_queue
unfolding get
new_request_queue-IsValid = record { unused = λ n h. refl; sound = λ id req h. absurd (cc) }

-- A write of a sound request.
IsSound-put :
    (rq : RequestQueue) (id : Bytes) (req : PathRequest)
    → IsValid rq
    → IsSound id req
    → (j : Bytes) (r : PathRequest) → get bytes_dec (put bytes_dec rq.requests id req) j ≡ some r
    → IsSound j r
IsSound-put rq id req ok good j r h = elim (bytes_dec id j) [
  | yes e ↦
      let same : req ≡ r = ground (arith, get-put bytes_dec rq.requests id req j) in
      subst₂ IsSound e same good
  | no n ↦ ok.sound j r (ground (arith, get-put bytes_dec rq.requests id req j))
]

put-IsValid :
    (rq : RequestQueue) (id : Bytes) (old req : PathRequest)
    → IsValid rq
    → find rq id ≡ some old
    → IsSound id req
    → IsValid (record rq { requests = put bytes_dec rq.requests id req })
put-IsValid rq id old req ok found good = record {
  unused = λ n h. ground (arith, get-put bytes_dec rq.requests id req (decimal n), ok.unused n h);
  sound = IsSound-put rq id req ok good;
}

-- Create keeps the invariant.
pub create-IsValid :
    (rq : RequestQueue) (path : Bytes) (ro : Bool) (pid now : ℕ)
    → IsValid rq
    → IsValid (create rq path ro pid now).0
unfolding create
create-IsValid rq path ro pid now ok = record {
  unused = λ n h. ground (
    arith,
    get-put bytes_dec rq.requests (decimal (rq.sequence + 1)) req (decimal n),
    ok.unused n (omega arith),
    decimal-injective (rq.sequence + 1) n,
  );
  sound =
      IsSound-put rq (decimal (rq.sequence + 1)) req ok (record { keyed = refl; agreed = refl });
}
  where
    req : PathRequest
    req = (create rq path ro pid now).1

-- Approve of a pending request.
pub approve-pending :
    (rq : RequestQueue) (id : Bytes) (req : PathRequest)
    → IsValid rq
    → find rq id ≡ some req
    → req.status ≡ pending
    → approve rq id ≡ (
      record rq {
        requests = put bytes_dec rq.requests id (record req {
          status = approved;
          result_chan = full (record { approved = true; reason = [] });
        });
      },
      done,
    )
unfolding approve send
approve-pending rq id req ok found p = ground (arith, (ok.sound id req found).agreed)

pub deny-pending :
    (rq : RequestQueue) (id reason : Bytes) (req : PathRequest)
    → IsValid rq
    → find rq id ≡ some req
    → req.status ≡ pending
    → deny rq id reason ≡ (
      record rq {
        requests = put bytes_dec rq.requests id (record req {
          status = denied;
          denial_reason = reason;
          result_chan = full (record { approved = false; reason = reason });
        });
      },
      done,
    )
unfolding deny send
deny-pending rq id reason req ok found p = ground (arith, (ok.sound id req found).agreed)

pub pending-cases : (st : RequestStatus) → (st ≡ pending) ⊎ (is_pending st ≡ false)
pending-cases pending = inl refl
pending-cases approved = inr refl
pending-cases denied = inr refl

-- Approve and Deny leave the queue alone where there is nothing to resolve.
pub approve-other :
    (rq : RequestQueue) (id : Bytes)
    → ((req : PathRequest) → find rq id ≡ some req → is_pending req.status ≡ false)
    → (approve rq id).0 ≡ rq
unfolding approve
approve-other rq id h = elim (Option-cases (find rq id)) [
  | inl missing ↦ ground arith
  | inr (req, found) ↦ ground (arith, h req found)
]

pub deny-other :
    (rq : RequestQueue) (id reason : Bytes)
    → ((req : PathRequest) → find rq id ≡ some req → is_pending req.status ≡ false)
    → (deny rq id reason).0 ≡ rq
unfolding deny
deny-other rq id reason h = elim (Option-cases (find rq id)) [
  | inl missing ↦ ground arith
  | inr (req, found) ↦ ground (arith, h req found)
]

pub approve-IsValid : (rq : RequestQueue) (id : Bytes) → IsValid rq → IsValid (approve rq id).0
approve-IsValid rq id ok = elim (Option-cases (find rq id)) [
  | inl missing ↦ rw (approve-other rq id (λ req f. absurd (cc))) ok
  | inr (req, found) ↦ elim (pending-cases req.status) [
    | inl p ↦ rw (approve-pending rq id req ok found p) (
        put-IsValid rq id req _ ok found
          (record { keyed = (ok.sound id req found).keyed; agreed = refl }))
    | inr n ↦ rw (approve-other rq id (λ r f. ground arith)) ok
  ]
]

pub deny-IsValid :
    (rq : RequestQueue) (id reason : Bytes) → IsValid rq → IsValid (deny rq id reason).0
deny-IsValid rq id reason ok = elim (Option-cases (find rq id)) [
  | inl missing ↦ rw (deny-other rq id reason (λ req f. absurd (cc))) ok
  | inr (req, found) ↦ elim (pending-cases req.status) [
    | inl p ↦ rw (deny-pending rq id reason req ok found p) (
        put-IsValid rq id req _ ok found
          (record { keyed = (ok.sound id req found).keyed; agreed = refl }))
    | inr n ↦ rw (deny-other rq id reason (λ r f. ground arith)) ok
  ]
]

-- CloseAll at one key.
pub get-close_each :
    (m : List (Bytes × PathRequest)) (k : Bytes)
    → get bytes_dec (close_each m) k ≡ Option.map close_request (get bytes_dec m k)
unfolding close_each get
get-close_each [] k = refl
get-close_each ((j, r) ∷ m) k = ground (arith, get-close_each m k)

close_request-IsSound :
    (id : Bytes) (req : PathRequest) → IsSound id req → IsSound id (close_request req)
unfolding close_request
close_request-IsSound id req s = ground arith

pub close_all-IsValid : (rq : RequestQueue) → IsValid rq → IsValid (close_all rq)
unfolding close_all
close_all-IsValid rq ok = record {
  unused = λ n h. ground (arith, get-close_each rq.requests (decimal n), ok.unused n h);
  sound = sound;
}
  where
    sound :
        (id : Bytes) (req : PathRequest)
        → get bytes_dec (close_each rq.requests) id ≡ some req
        → IsSound id req
    sound id req h = elim (Option-cases (find rq id)) [
      | inl missing ↦ absurd (ground (arith, get-close_each rq.requests id))
      | inr (old, found) ↦
          let same : close_request old ≡ req = ground (arith, get-close_each rq.requests id) in
          subst (IsSound id) same (close_request-IsSound id old (ok.sound id old found))
    ]

-- A result that Wait hands over.
pub wait-found :
    (rq rq' : RequestQueue) (id : Bytes) (r : RequestResult)
    → wait rq id ≡ some (r, rq')
    → (req : PathRequest) × (ch : ResultChan) × (find rq id ≡ some req)
      × (receive req.result_chan ≡ some (r, ch))
      × (rq'
          ≡ record rq { requests = put bytes_dec rq.requests id (record req { result_chan = ch }) })
unfolding wait
wait-found rq rq' id r h = elim (Option-cases (find rq id)) [
  | inl missing ↦ absurd (ground arith)
  | inr (req, found) ↦ elim (Option-cases (receive req.result_chan)) [
    | inl blocked ↦ absurd (ground arith)
    | inr ((r', ch), got) ↦ (req, ch, found, ground arith, ground arith)
  ]
]

received_agrees :
    (st : RequestStatus) (ch ch' : ResultChan) (r : RequestResult)
    → agrees st ch ≡ true
    → receive ch ≡ some (r, ch')
    → agrees st ch' ≡ true
unfolding receive
received_agrees st ch ch' r a h = ground arith

pub wait-IsValid :
    (rq rq' : RequestQueue) (id : Bytes) (r : RequestResult)
    → IsValid rq
    → wait rq id ≡ some (r, rq')
    → IsValid rq'
wait-IsValid rq rq' id r ok h =
    let (req, ch, found, got, e) = wait-found rq rq' id r h in
    rw e (
      put-IsValid rq id req _ ok found (record {
        keyed = (ok.sound id req found).keyed;
        agreed = received_agrees req.status req.result_chan ch r (ok.sound id req found).agreed got;
      }))
