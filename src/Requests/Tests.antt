-- ===== src/Requests/Tests.antt =====
-- Runs of the request queue, and its theorems at concrete queues.
use homura.Bytes.{codes, bytes_dec}
use homura.Decimal.{decimal}
use homura.Prelude.Dict.{get, put}
use homura.Prelude.{◌≡◌, ◌≢◌, refl, true, false, [], ◌∷◌, some, ℕ_discrete, ◌⊎◌}
use homura.Requests.Lifecycle.{
  approve_call, deny_call, run, run-IsValid, resolvers-ne-stuck, wait-resolution,
}
use homura.Requests.Valid.{IsValid, new_request_queue-IsValid, create-IsValid}
use homura.Requests.{
  approved, denied, PathRequest, RequestQueue, new_request_queue, find, create, wait, approve, deny,
  close_all, stuck, already_resolved, not_found, list_requests, receive, send, ResultChan,
}

program : Unit {0}
unfolding create wait receive send approve deny close_all list_requests get put bytes_dec ℕ_discrete
    decimal run
program = tt

-- Request "1" for "/etc", request "2" for "/srv".
abbrev one : RequestQueue
one = (create new_request_queue (codes "/etc") true 77 5).0

abbrev two : RequestQueue
two = (create one (codes "/srv") false 77 6).0

abbrev second : PathRequest
second = (create one (codes "/srv") false 77 6).1

replies :
    ((approve two (codes "3")).1 ≡ not_found)
    × ((approve (deny two (codes "1") (codes "no")).0 (codes "1")).1 ≡ already_resolved denied)
    × (list_requests (approve two (codes "1")).0 ≡ second ∷ [])
unfolding program
replies = (refl, refl, refl)

one-IsValid : IsValid one
one-IsValid = create-IsValid new_request_queue (codes "/etc") true 77 5 new_request_queue-IsValid

two-IsValid : IsValid two
two-IsValid = create-IsValid one (codes "/srv") false 77 6 one-IsValid

run-IsValid_example : IsValid (run two (approve_call (codes "2")))
run-IsValid_example = run-IsValid two (approve_call (codes "2")) two-IsValid

resolvers-ne-stuck_example :
    ((approve two (codes "2")).1 ≢ stuck) × ((deny two (codes "2") (codes "no")).1 ≢ stuck)
resolvers-ne-stuck_example = resolvers-ne-stuck two (codes "2") (codes "no") two-IsValid

-- The queue after the denial of request "1".
abbrev denied_one : RequestQueue
denied_one = run two (deny_call (codes "1") (codes "no"))

denied_one-IsValid : IsValid denied_one
denied_one-IsValid = run-IsValid two (deny_call (codes "1") (codes "no")) two-IsValid

abbrev first_denied : PathRequest
first_denied = record {
  id = codes "1";
  path = codes "/etc";
  read_only = true;
  requested_at = 5;
  status = denied;
  vm_pid = 77;
  denial_reason = codes "no";
  result_chan = ResultChan.full (record { approved = false; reason = codes "no" });
}

abbrev first_received : PathRequest
first_received = record first_denied { result_chan = ResultChan.empty }

abbrev received : RequestQueue
received = record two { requests = put bytes_dec denied_one.requests (codes "1") first_received }

wait-resolution_example :
    (req : PathRequest) × (find denied_one (codes "1") ≡ some req)
    × ((req.status ≡ approved) × (false ≡ true) ⊎ (req.status ≡ denied) × (false ≡ false))
unfolding program
wait-resolution_example =
    wait-resolution denied_one received (codes "1")
      (record { approved = false; reason = codes "no" }) denied_one-IsValid refl
