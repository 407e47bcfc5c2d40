-- ===== src/Contracts/Errors.antt =====
-- packages/contracts/src/kernel/errors.ts: the codes that `throwSimulationError` raises, and those
-- that a model may catch.
use mathlib.Core.Bool.{Bool, true, false}

pub data ErrorCode : Type 0 where
  identity_overflow sequence_overflow invalid_run_input invalid_registration : ErrorCode
  invalid_operation stale_capability control_busy invalid_run_options uncontrolled_async : ErrorCode
  simulation_deadlock unawaited_operation initialization_failed handler_failed : ErrorCode
  invalid_simulation_time invalid_duration time_overflow clock_rewind no_active_task : ErrorCode
  event_in_past invalid_event_type invalid_event_payload invalid_scheduler_state : ErrorCode
  invalid_observation_filter invalid_observation_schema unknown_observation_type : ErrorCode
  invalid_observation history_limit_exceeded history_sealed observer_reentrancy : ErrorCode
  invalid_network_request invalid_network_reply network_timeout target_unavailable : ErrorCode
  endpoint_not_found invalid_message_operation bus_capacity_exceeded invalid_delivery : ErrorCode
  invalid_service_transition invalid_client_action invalid_client_state : ErrorCode
  invalid_external_configuration external_unavailable external_rate_limited : ErrorCode
  invalid_database_operation row_exists row_not_found commit_failed transaction_conflict : ErrorCode
  constraint_violation invalid_kv_operation kv_not_integer kv_counter_overflow : ErrorCode
  fault_probe_reused invalid_fault invalid_scenario invalid_assessment_result : ErrorCode

-- The codes of `ModeledErrorCodes`, which reach a task and may be caught there.
unfoldable pub is_modeled : ErrorCode → Bool
is_modeled network_timeout = true
is_modeled bus_capacity_exceeded = true
is_modeled row_exists = true
is_modeled row_not_found = true
is_modeled commit_failed = true
is_modeled transaction_conflict = true
is_modeled constraint_violation = true
is_modeled kv_not_integer = true
is_modeled kv_counter_overflow = true
is_modeled _ = false

-- The codes of `ReplyErrorCodes`, which stand in the body of a network reply.
unfoldable pub is_reply_code : ErrorCode → Bool
is_reply_code target_unavailable = true
is_reply_code endpoint_not_found = true
is_reply_code external_unavailable = true
is_reply_code external_rate_limited = true
is_reply_code _ = false
