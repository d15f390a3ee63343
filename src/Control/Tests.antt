-- ===== src/Control/Tests.antt =====
-- Runs of the control server, and its theorems at concrete requests.
use homura.Bytes.{Bytes, bytes_dec, codes}
use homura.Control.Approval
use homura.Control.Run.{
  handle_request, dispatch, conclude, resume, World, Event, on_unix, on_tcp, wake, settle_answer,
  step, run,
}
use homura.Control.Safety.{IsQuiet, Keeps, run-from_guest}
use homura.Control.{
  RpcRequest, result, error, authentication_failed, invalid_token, request_denied, request_approved,
  ControlServer, Host, Waiting, respond, request_params, text_params, authenticate_request,
  handle_request_method,
}
use homura.Decimal.{decimal}
use homura.Json.{
  number, string, boolean, object, member, no_members, members, read_string, read_bool,
}
use homura.Paths.{clean}
use homura.Prelude.Dict.{get, put, delete}
use homura.Prelude.{◌≡◌, refl, true, false, List, [], ◌∷◌, some, ℕ_discrete, Bool}
use homura.Registry.Invariant.{new_path_registry-IsConsistent}
use homura.Registry.{
  new_path_registry, exposed, not_visible, add_path, check_path, is_read_only, flag, ancestor_path,
}
use homura.Requests.Valid.{IsValid, new_request_queue-IsValid, create-IsValid}
use homura.Requests.{
  new_request_queue, PathRequest, create, approve, deny, close_all, wait, receive, send,
}

program : Unit {0}
unfolding dispatch conclude handle_request resume settle_answer step run authenticate_request
    request_params text_params handle_request_method members read_string read_bool bytes_dec
    ℕ_discrete get put delete create approve deny close_all wait receive send decimal add_path
    check_path is_read_only flag ancestor_path clean
program = tt

abbrev all_exist : Bytes → Bool
all_exist p = true

abbrev unix : ControlServer
unix = record { is_unix_socket = true; auth_token = []; vm_pid = 7; connections = 0 }

abbrev tcp : ControlServer
tcp = record { is_unix_socket = false; auth_token = codes "s3cret"; vm_pid = 7; connections = 0 }

abbrev start : Host
start = record { registry = new_path_registry; queue = new_request_queue }

abbrev idle : World
idle = record { host = start; waiting = [] }

-- {"path": "/etc", "token": …}
abbrev ask : Bytes → RpcRequest
ask token = record {
  method = codes "request";
  params = some (
      object (
        member (codes "Path") (string (codes "/etc")) (
          member (codes "token") (string token)
            (member (codes "readonly") (boolean true) no_members))));
  id = number (codes "1");
}

abbrev approve_first : RpcRequest
approve_first = record {
  method = codes "req-approve";
  params = some (object (member (codes "request_id") (string (codes "1")) no_members));
  id = number (codes "2");
}

-- The guest asks, the user approves, and the path is there.
asked_and_approved :
    (check_path
        (run all_exist unix tcp idle
          (on_tcp 1 (ask (codes "s3cret")) ∷ on_unix 2 approve_first ∷ wake 0 ∷ [])).host.registry
        (codes "/etc/passwd")
      ≡ exposed)
    × (check_path
          (run all_exist unix tcp idle
            (on_tcp 1 (ask (codes "s3cret")) ∷ on_tcp 2 approve_first ∷ wake 0 ∷ [])).host.registry
          (codes "/etc/passwd")
        ≡ not_visible)
unfolding program
asked_and_approved = (refl, refl)

refused :
    (handle_request all_exist 1 tcp start (ask (codes "guess"))).1
    ≡ respond
        (record { body = error (authentication_failed invalid_token); id = number (codes "1") })
unfolding program
refused = refl

start-IsQuiet : IsQuiet start
unfolding get
start-IsQuiet = record { valid = new_request_queue-IsValid; unapproved = λ id req h. absurd (cc) }

abbrev guest_events : List Event
guest_events = on_tcp 1 (ask (codes "s3cret")) ∷ wake 0 ∷ on_tcp 2 approve_first ∷ wake 0 ∷ []

run-from_guest_example : Keeps start (run all_exist unix tcp idle guest_events).host
run-from_guest_example =
    run-from_guest all_exist unix tcp refl idle guest_events (tt, (tt, (tt, (tt, tt))))
      start-IsQuiet

-- The host with request "1" for "/etc" pending, and the handler that waits for it.
abbrev asked : Host
asked = record start { queue = (create new_request_queue (codes "/etc") true 7 1).0 }

abbrev first : PathRequest
first = (create new_request_queue (codes "/etc") true 7 1).1

abbrev waiter : Waiting
waiter = record {
  request_id = codes "1";
  path = codes "/etc";
  read_only = true;
  id = number (codes "1");
}

asked-IsValid : IsValid asked.queue
asked-IsValid = create-IsValid new_request_queue (codes "/etc") true 7 1 new_request_queue-IsValid

resume-approve_example :
    (h' : Host) × (resume all_exist
        (record asked { queue = (approve asked.queue (codes "1")).0 })
        waiter
      ≡ some (
        h',
        respond (record {
          body = result (request_approved (codes "/etc") true);
          id = number (codes "1");
        }),
      ))
    × (check_path h'.registry (codes "/etc") ≡ exposed)
    × (is_read_only h'.registry (codes "/etc") ≡ true)
unfolding program
resume-approve_example =
    Approval.resume-approve all_exist asked waiter first asked-IsValid
      new_path_registry-IsConsistent refl refl refl

resume-close_all_example :
    (h' : Host) × (resume all_exist (record asked { queue = close_all asked.queue }) waiter
      ≡ some (h', respond (record { body = error (request_denied []); id = number (codes "1") })))
    × (h'.registry ≡ asked.registry)
unfolding program
resume-close_all_example = Approval.resume-close_all all_exist asked waiter first refl refl
