-- ===== src/Contracts/Codes.antt =====
-- packages/contracts/src/kernel/errors.ts: the texts of the codes.
use distlab.Base.{Text, units}
use distlab.Contracts.Errors.{
  ErrorCode, identity_overflow, sequence_overflow, invalid_run_input, invalid_registration,
  invalid_operation, stale_capability, control_busy, invalid_run_options, uncontrolled_async,
  simulation_deadlock, unawaited_operation, initialization_failed, handler_failed,
  invalid_simulation_time, invalid_duration, time_overflow, clock_rewind, no_active_task,
  event_in_past, invalid_event_type, invalid_event_payload, invalid_scheduler_state,
  invalid_observation_filter, invalid_observation_schema, unknown_observation_type,
  invalid_observation, history_limit_exceeded, history_sealed, observer_reentrancy,
  invalid_network_request, invalid_network_reply, network_timeout, target_unavailable,
  endpoint_not_found, invalid_message_operation, bus_capacity_exceeded, invalid_delivery,
  invalid_service_transition, invalid_client_action, invalid_client_state,
  invalid_external_configuration, external_unavailable, external_rate_limited,
  invalid_database_operation, row_exists, row_not_found, commit_failed, transaction_conflict,
  constraint_violation, invalid_kv_operation, kv_not_integer, kv_counter_overflow,
  fault_probe_reused, invalid_fault, invalid_scenario, invalid_assessment_result,
}

-- The text of a code.
unfoldable pub code_name : ErrorCode → Text
code_name identity_overflow = units "IDENTITY_OVERFLOW"
code_name sequence_overflow = units "SEQUENCE_OVERFLOW"
code_name invalid_run_input = units "INVALID_RUN_INPUT"
code_name invalid_registration = units "INVALID_REGISTRATION"
code_name invalid_operation = units "INVALID_OPERATION"
code_name stale_capability = units "STALE_CAPABILITY"
code_name control_busy = units "CONTROL_BUSY"
code_name invalid_run_options = units "INVALID_RUN_OPTIONS"
code_name uncontrolled_async = units "UNCONTROLLED_ASYNC"
code_name simulation_deadlock = units "SIMULATION_DEADLOCK"
code_name unawaited_operation = units "UNAWAITED_OPERATION"
code_name initialization_failed = units "INITIALIZATION_FAILED"
code_name handler_failed = units "HANDLER_FAILED"
code_name invalid_simulation_time = units "INVALID_SIMULATION_TIME"
code_name invalid_duration = units "INVALID_DURATION"
code_name time_overflow = units "TIME_OVERFLOW"
code_name clock_rewind = units "CLOCK_REWIND"
code_name no_active_task = units "NO_ACTIVE_TASK"
code_name event_in_past = units "EVENT_IN_PAST"
code_name invalid_event_type = units "INVALID_EVENT_TYPE"
code_name invalid_event_payload = units "INVALID_EVENT_PAYLOAD"
code_name invalid_scheduler_state = units "INVALID_SCHEDULER_STATE"
code_name invalid_observation_filter = units "INVALID_OBSERVATION_FILTER"
code_name invalid_observation_schema = units "INVALID_OBSERVATION_SCHEMA"
code_name unknown_observation_type = units "UNKNOWN_OBSERVATION_TYPE"
code_name invalid_observation = units "INVALID_OBSERVATION"
code_name history_limit_exceeded = units "HISTORY_LIMIT_EXCEEDED"
code_name history_sealed = units "HISTORY_SEALED"
code_name observer_reentrancy = units "OBSERVER_REENTRANCY"
code_name invalid_network_request = units "INVALID_NETWORK_REQUEST"
code_name invalid_network_reply = units "INVALID_NETWORK_REPLY"
code_name network_timeout = units "NETWORK_TIMEOUT"
code_name target_unavailable = units "TARGET_UNAVAILABLE"
code_name endpoint_not_found = units "ENDPOINT_NOT_FOUND"
code_name invalid_message_operation = units "INVALID_MESSAGE_OPERATION"
code_name bus_capacity_exceeded = units "BUS_CAPACITY_EXCEEDED"
code_name invalid_delivery = units "INVALID_DELIVERY"
code_name invalid_service_transition = units "INVALID_SERVICE_TRANSITION"
code_name invalid_client_action = units "INVALID_CLIENT_ACTION"
code_name invalid_client_state = units "INVALID_CLIENT_STATE"
code_name invalid_external_configuration = units "INVALID_EXTERNAL_CONFIGURATION"
code_name external_unavailable = units "EXTERNAL_UNAVAILABLE"
code_name external_rate_limited = units "EXTERNAL_RATE_LIMITED"
code_name invalid_database_operation = units "INVALID_DATABASE_OPERATION"
code_name row_exists = units "ROW_EXISTS"
code_name row_not_found = units "ROW_NOT_FOUND"
code_name commit_failed = units "COMMIT_FAILED"
code_name transaction_conflict = units "TRANSACTION_CONFLICT"
code_name constraint_violation = units "CONSTRAINT_VIOLATION"
code_name invalid_kv_operation = units "INVALID_KV_OPERATION"
code_name kv_not_integer = units "KV_NOT_INTEGER"
code_name kv_counter_overflow = units "KV_COUNTER_OVERFLOW"
code_name fault_probe_reused = units "FAULT_PROBE_REUSED"
code_name invalid_fault = units "INVALID_FAULT"
code_name invalid_scenario = units "INVALID_SCENARIO"
code_name invalid_assessment_result = units "INVALID_ASSESSMENT_RESULT"
