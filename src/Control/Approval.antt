-- ===== src/Control/Approval.antt =====
-- From a decision on the Unix socket to the answer that the guest gets.
use mathlib.Core.Option
use homura.Bytes.{Bytes}
use homura.Control.Run.{conclude, resume}
use homura.Control.{
  Host, Waiting, respond, error, result, request_denied, request_approved, answer_added,
}
use homura.Prelude.{◌≡◌, refl, Bool, true, false, [], none, some, arith, Option-cases, inl, inr}
use homura.Registry.Effects.{add_path-exposes}
use homura.Registry.Invariant.{IsConsistent}
use homura.Registry.{exposed, add_path, check_path, is_read_only}
use homura.Requests.Lifecycle.{wait-approve, wait-deny}
use homura.Requests.Valid.{IsValid, get-close_each}
use homura.Requests.{
  RequestQueue, PathRequest, pending, RequestResult, find, wait, receive, approve, deny, close_all,
  close_request,
}

-- The whole result of a Wait whose first part is known.
wait-of_first :
    (rq : RequestQueue) (id : Bytes) (r : RequestResult)
    → Option.map (λ w. w.0) (wait rq id) ≡ some r
    → (rq' : RequestQueue) × (wait rq id ≡ some (r, rq'))
wait-of_first rq id r h = elim (Option-cases (wait rq id)) [
  | inl blocked ↦ absurd (ground arith)
  | inr ((r', rq'), got) ↦ (rq', ground arith)
]

module _ (stat : Bytes → Bool) (h : Host) (w : Waiting) (req : PathRequest) where
  -- On a consistent registry and a valid queue, once the pending request of a blocked handler
  -- has been approved, the handler wakes up and answers so, its path is exposed with the read-
  -- only flag that was asked for, where AddPath accepts that path.
  pub resume-approve :
      IsValid h.queue
      → IsConsistent h.registry
      → find h.queue w.request_id ≡ some req
      → req.status ≡ pending
      → (add_path stat h.registry w.path w.read_only).1 ≡ none
      → (h' : Host) × (resume stat (record h { queue = (approve h.queue w.request_id).0 }) w
          ≡ some (
            h',
            respond (record { body = result (request_approved w.path w.read_only); id = w.id }),
          ))
        × (check_path h'.registry w.path ≡ exposed)
        × (is_read_only h'.registry w.path ≡ w.read_only)
  unfolding resume conclude answer_added
  resume-approve ok cons found p fine =
      let r : RequestResult = record { approved = true; reason = [] } in
      let (q', got) =
        wait-of_first (approve h.queue w.request_id).0 w.request_id r
          (wait-approve h.queue w.request_id req ok found p).1 in
      let reg = (add_path stat h.registry w.path w.read_only).0 in
      let (vis, ro, _) = add_path-exposes stat h.registry w.path w.read_only cons fine in
      (record { registry = reg; queue = q' }, ground arith, vis, ro)

  -- On a valid queue, once the pending request of a blocked handler has been denied, the handler
  -- wakes up, answers with the reason given, and the registry is as before.
  pub resume-deny :
      (reason : Bytes)
      → IsValid h.queue
      → find h.queue w.request_id ≡ some req
      → req.status ≡ pending
      → (h' : Host) × (resume stat (record h { queue = (deny h.queue w.request_id reason).0 }) w
          ≡ some (h', respond (record { body = error (request_denied reason); id = w.id })))
        × (h'.registry ≡ h.registry)
  unfolding resume conclude
  resume-deny reason ok found p =
      let r : RequestResult = record { approved = false; reason = reason } in
      let (q', got) =
        wait-of_first (deny h.queue w.request_id reason).0 w.request_id r
          (wait-deny h.queue w.request_id reason [] req ok found p).1 in
      (record h { queue = q' }, ground arith, refl)

  -- After CloseAll the handler of a pending request wakes up, leaves the registry as it was, and
  -- answers that the request was denied with an empty reason.
  pub resume-close_all :
      find h.queue w.request_id ≡ some req
      → req.status ≡ pending
      → (h' : Host) × (resume stat (record h { queue = close_all h.queue }) w
          ≡ some (h', respond (record { body = error (request_denied []); id = w.id })))
        × (h'.registry ≡ h.registry)
  unfolding resume conclude
  resume-close_all found p =
      let r : RequestResult = record { approved = false; reason = [] } in
      let (q', got) = wait-of_first (close_all h.queue) w.request_id r closed_first in
      (record h { queue = q' }, ground arith, refl)
    where
      closed_first :
          Option.map (λ o. o.0) (wait (close_all h.queue) w.request_id)
          ≡ some (record { approved = false; reason = [] })
      closed_first =
          unfold wait receive close_all close_request in
          ground (arith, get-close_each h.queue.requests w.request_id)
