-- ===== src/Examples/Worker.antt =====
-- Sessions of a worker projection (src/local_agent_dispatch/worker/state.py): a registration, a job
-- that starts and exits, and a second generation.
use local_agent_dispatch.Api.Contracts.{
  ResourceUsage, HostRegistration, ExecutionHandle, ExecutionState,
}
use local_agent_dispatch.Prelude.Dict
use local_agent_dispatch.Prelude.Keys.{string_eq}
use local_agent_dispatch.Prelude.{
  ◌≤◌, ℕ, String, ◌≡◌, ◌≢◌, refl, ◌⊎◌, none, some, List, [], ◌∷◌, ◌++◌, arith, false, true,
}
use local_agent_dispatch.Worker.State.{
  WorkerState, WorkerError, ok, err, initial, is_retry, remember, clear_generation_idempotency,
  require_current_identity, require_forward_sequence, transition_allowed, execution_identity,
}
use local_agent_dispatch.Worker.Apply.{
  Json, Message, register, report_execution, apply, apply_registration, apply_execution_handle,
  deliver,
}
use local_agent_dispatch.Worker.Invariant.{IsWellFormed, deliver-IsWellFormed}
use local_agent_dispatch.Worker.History.{
  deliver-fence_monotone, deliver-identity_permanent, deliver-stale_handle_gone,
}
use local_agent_dispatch.Worker.Replay.{apply_again}
use local_agent_dispatch.Worker.Reuse.{deliver-key_reuse}
use local_agent_dispatch.Worker.Terminal.{deliver-terminal_absorbs}

-- An encoder that tells apart the messages of this module.
abbrev json : Json
json = record {
  registration_json = λ r. r.registered_at;
  capability_json = λ c. c.snapshot_id;
  resource_json = λ c. c.snapshot_id;
  heartbeat_json = λ h. h.heartbeat_id;
  execution_json = λ h. h.observed_at;
}

abbrev nothing_used : ResourceUsage
nothing_used = record {
  cpu_cores = none;
  ram_bytes = none;
  swap_bytes = none;
  gpu_memory_bytes = none;
  disk_bytes = none;
  inodes = none;
  owned_process_rss_bytes = none;
}

abbrev registration_of : ℕ → String → HostRegistration
registration_of fence key = record {
  registration_id = "reg";
  host_id = "host";
  worker_id = "worker";
  roles = [];
  registered_at = key;
  idempotency_key = key;
  fence_token = fence;
  labels = [];
}

abbrev handle_of : ExecutionState → ℕ → String → String → ExecutionHandle
handle_of state sequence key content = record {
  handle_id = "h";
  job_id = "job";
  attempt_id = "a1";
  host_id = "host";
  worker_id = "worker";
  state = state;
  observed_at = content;
  ttl_seconds = some 60;
  source = "worker";
  confidence = some 1;
  sequence = sequence;
  idempotency_key = key;
  fence_token = 1;
  reservation_id = some "rsv-00000001";
  process_id = none;
  reserved_usage = nothing_used;
  actual_usage = nothing_used;
  artifact_refs = [];
}

abbrev started : ExecutionHandle
started = handle_of ExecutionState.running 1 "k1" "t1"

abbrev exited : ExecutionHandle
exited = handle_of ExecutionState.exited 2 "k2" "t2"

abbrev resumed : ExecutionHandle
resumed = handle_of ExecutionState.running 3 "k3" "t3"

abbrev finished : List Message
finished =
    register (registration_of 1 "r1") ∷ report_execution started ∷ report_execution exited ∷ []

abbrev second_session : List Message
second_session = finished ++ register (registration_of 2 "r2") ∷ []

abbrev after_finished : WorkerState
after_finished = deliver json finished initial

abbrev after_next : WorkerState
after_next = deliver json second_session initial

finished_live : Dict.get "h" after_finished.execution_handles ≡ some exited
unfolding deliver apply apply_registration apply_execution_handle is_retry remember
    clear_generation_idempotency require_current_identity require_forward_sequence
    transition_allowed Dict.get Dict.put Dict.keep
finished_live = refl

deliver-terminal_absorbs_example :
    (Dict.get "h" (deliver json (report_execution resumed ∷ []) after_finished).execution_handles
      ≡ none)
    ⊎ ((h' : ExecutionHandle) × (Dict.get "h"
            (deliver json (report_execution resumed ∷ []) after_finished).execution_handles
          ≡ some h')
        × (h'.state ≡ ExecutionState.exited))
deliver-terminal_absorbs_example =
    deliver-terminal_absorbs json (report_execution resumed ∷ []) after_finished "h" exited
      (deliver-IsWellFormed json finished) finished_live tt

-- The handle "h" was bound under fence 1, and fence 2 is active.
next_bound : Dict.get "h" after_next.execution_identities ≡ some (execution_identity started)
unfolding deliver apply apply_registration apply_execution_handle is_retry remember
    clear_generation_idempotency require_current_identity require_forward_sequence
    transition_allowed Dict.get Dict.put Dict.keep
next_bound = refl

next_registered : after_next.registration ≡ some (registration_of 2 "r2")
unfolding deliver apply apply_registration apply_execution_handle is_retry remember
    clear_generation_idempotency require_current_identity require_forward_sequence
    transition_allowed Dict.get Dict.put Dict.keep
next_registered = refl

deliver-stale_handle_gone_example :
    Dict.get "h" (deliver json (report_execution resumed ∷ []) after_next).execution_handles ≡ none
deliver-stale_handle_gone_example =
    deliver-stale_handle_gone json (report_execution resumed ∷ []) after_next "h"
      (execution_identity started) (registration_of 2 "r2")
      (deliver-IsWellFormed json second_session) next_bound next_registered (omega arith)

finished_bound :
    Dict.get "h" after_finished.execution_identities ≡ some (execution_identity started)
unfolding deliver apply apply_registration apply_execution_handle is_retry remember
    clear_generation_idempotency require_current_identity require_forward_sequence
    transition_allowed Dict.get Dict.put Dict.keep
finished_bound = refl

finished_stays : Dict.get "h" (deliver json [] after_finished).execution_handles ≡ some exited
unfolding deliver
finished_stays = finished_live

deliver-identity_permanent_example : execution_identity exited ≡ execution_identity started
deliver-identity_permanent_example =
    deliver-identity_permanent json [] after_finished "h" (execution_identity started) exited
      (deliver-IsWellFormed json finished) finished_bound finished_stays

finished_registered : after_finished.registration ≡ some (registration_of 1 "r1")
unfolding deliver apply apply_registration apply_execution_handle is_retry remember
    clear_generation_idempotency require_current_identity require_forward_sequence
    transition_allowed Dict.get Dict.put Dict.keep
finished_registered = refl

deliver-fence_monotone_example :
    (r : HostRegistration) × ((deliver json
        (register (registration_of 2 "r2") ∷ [])
        after_finished).registration
      ≡ some r)
    × (r.host_id ≡ "host")
    × (r.worker_id ≡ "worker")
    × (1 ≤ r.fence_token)
deliver-fence_monotone_example =
    deliver-fence_monotone json (register (registration_of 2 "r2") ∷ []) after_finished
      (registration_of 1 "r1") finished_registered

deliver-IsWellFormed_example : IsWellFormed after_next
deliver-IsWellFormed_example = deliver-IsWellFormed json second_session

abbrev registered : WorkerState
registered = deliver json (register (registration_of 1 "r1") ∷ []) initial

registered_accepts :
    apply json (report_execution started) registered
    ≡ ok (
      true,
      deliver json (register (registration_of 1 "r1") ∷ report_execution started ∷ []) initial,
    )
unfolding deliver apply apply_registration apply_execution_handle is_retry remember
    clear_generation_idempotency require_current_identity require_forward_sequence
    transition_allowed Dict.get Dict.put Dict.keep
registered_accepts = refl

abbrev running_state : WorkerState
running_state =
    deliver json (register (registration_of 1 "r1") ∷ report_execution started ∷ []) initial

apply_again_example :
    apply json (report_execution started) running_state ≡ ok (false, running_state)
apply_again_example =
    apply_again json (report_execution started) registered running_state registered_accepts

-- The key of `started` with another content.
abbrev conflicting : ExecutionHandle
conflicting = handle_of ExecutionState.running 2 "k1" "t9"

running_registered : running_state.registration ≡ some (registration_of 1 "r1")
unfolding deliver apply apply_registration apply_execution_handle is_retry remember
    clear_generation_idempotency require_current_identity require_forward_sequence
    transition_allowed Dict.get Dict.put Dict.keep
running_registered = refl

abbrev later_state : WorkerState
later_state = deliver json (report_execution exited ∷ []) running_state

later_registered : later_state.registration ≡ some (registration_of 1 "r1")
unfolding deliver apply apply_registration apply_execution_handle is_retry remember
    clear_generation_idempotency require_current_identity require_forward_sequence
    transition_allowed Dict.get Dict.put Dict.keep
later_registered = refl

later_admits : require_current_identity "host" "worker" 1 later_state ≡ ok tt
unfolding deliver apply apply_registration apply_execution_handle is_retry remember
    clear_generation_idempotency require_current_identity require_forward_sequence
    transition_allowed Dict.get Dict.put Dict.keep
later_admits = refl

other_text : ◌≢◌ {A = String} "t9" "t1"
other_text e = ground (arith, e, (string_eq.beq_iff "t9" "t1").1 e)

deliver-key_reuse_example :
    apply json (report_execution conflicting) later_state ≡ err WorkerError.idempotency
deliver-key_reuse_example =
    deliver-key_reuse json (report_execution started) (report_execution conflicting)
      (report_execution exited ∷ []) registered running_state (registration_of 1 "r1")
      (registration_of 1 "r1") registered_accepts running_registered later_registered refl refl refl
      other_text later_admits
