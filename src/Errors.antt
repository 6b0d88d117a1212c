-- ===== src/Errors.antt =====
-- The error catalogue of internal/maidenlaneerrors/errors.go.
use zeroxyz.Prelude.{String}

-- One constructor for each message constant. The texts that `Errorf` formats are not modelled.
pub data ErrorId : Type 0 where
  address_book_lookup_bad_url address_book_lookup_bad_hosts_file : ErrorId
  address_book_lookup_not_found config_file_read_failed compiler_version_not_found : ErrorId
  compiler_version_bad_request compiler_failed_solc compiler_output_missing_contract : ErrorId
  compiler_output_multiple_contracts compiler_bytecode_invalid : ErrorId
  compiler_bytecode_empty compiler_abi_serialize compiler_abi_re_read : ErrorId
  compiler_serialize_dev_docs config_no_rpc config_kafka_missing_output_topic : ErrorId
  config_kafka_missing_input_topic config_kafka_missing_consumer_group : ErrorId
  config_kafka_missing_bad_sasl config_kafka_missing_brokers : ErrorId
  config_rest_gateway_required_receipt_store config_rest_gateway_required_rpc : ErrorId
  config_webhooks_direct_rpc config_tls_cert_or_key config_no_yaml : ErrorId
  config_yaml_parse_file config_yaml_post_parse_file deploy_transaction_missing_code : ErrorId
  event_streams_db_load event_streams_no_id event_streams_invalid_action_type : ErrorId
  event_streams_webhook_no_url event_streams_webhook_invalid_url : ErrorId
  event_streams_webhook_resume_active event_streams_webhook_prohibited_address : ErrorId
  event_streams_webhook_failed_http_status event_streams_subscribe_bad_block : ErrorId
  event_streams_subscribe_store_failed event_streams_subscribe_no_event : ErrorId
  event_streams_subscription_not_found event_streams_create_stream_store_failed : ErrorId
  event_streams_create_stream_resource_err event_streams_stream_not_found : ErrorId
  event_streams_log_decode event_streams_log_decode_insufficient_topics : ErrorId
  event_streams_log_decode_data kakfa_producer_confirm_msg_unknown kv_store_db_load : ErrorId
  kv_store_mem_filtering_unsupported hd_wallet_signing_failed : ErrorId
  hd_wallet_signing_bad_data hd_wallet_signing_no_config : ErrorId
  helper_str_to_address_required_field helper_str_to_address_bad_address : ErrorId
  helper_yaml_or_json_payload_too_large helper_yaml_or_json_payload_read_failed : ErrorId
  helper_yaml_or_json_payload_parse_failed http_requester_serialize_failed : ErrorId
  http_requester_non_status_error http_requester_status_error_no_data : ErrorId
  http_requester_status_error_with_data http_requester_status_error : ErrorId
  http_requester_response_missing_field http_requester_response_non_string_field : ErrorId
  http_requester_response_null_field receipt_store_disabled receipt_store_db_load : ErrorId
  receipt_store_mongo_db_connect receipt_store_mongo_db_index : ErrorId
  receipt_store_serialize_response receipt_store_invalid_request_id : ErrorId
  receipt_store_invalid_request_max_limit receipt_store_invalid_request_bad_limit : ErrorId
  receipt_store_invalid_request_bad_skip receipt_store_invalid_request_bad_since : ErrorId
  receipt_store_failed_query receipt_store_failed_query_single : ErrorId
  receipt_store_failed_not_found remote_registry_cache_init : ErrorId
  remote_registry_not_configured remote_registry_registration_failed : ErrorId
  remote_registry_lookup_gateway_not_found remote_registry_lookup_instance_not_found : ErrorId
  remote_registry_lookup_generic_processing_failed rest_gateway_gateway_not_found : ErrorId
  rest_gateway_instance_not_found rest_gateway_event_not_declared : ErrorId
  rest_gateway_method_not_declared rest_gateway_invalid_to_address : ErrorId
  rest_gateway_invalid_from_address rest_gateway_missing_parameter : ErrorId
  rest_gateway_missing_from_address rest_gateway_subscribe_missing_stream_parameter : ErrorId
  rest_gateway_mixed_private_for_and_group_id rest_gateway_event_manager_init_failed : ErrorId
  rest_gateway_event_stream_invalid rest_gateway_post_deploy_missing_address : ErrorId
  rest_gateway_registration_supplied_invalid_address : ErrorId
  rest_gateway_sync_msg_type_mismatch rest_gateway_sync_wrap_error_with_tx_detail : ErrorId
  rest_gateway_method_type_invalid rest_gateway_method_abi_invalid : ErrorId
  rest_gateway_event_abi_invalid rest_gateway_compile_contract_invalid_form_data : ErrorId
  rest_gateway_compile_contract_compile_failed : ErrorId
  rest_gateway_compile_contract_post_compile_failed : ErrorId
  rest_gateway_compile_contract_extracted_read_failed : ErrorId
  rest_gateway_compile_contract_no_sol rest_gateway_compile_contract_solc_ver_fail : ErrorId
  rest_gateway_compile_contract_compile_fail_details : ErrorId
  rest_gateway_compile_contract_solc_output_process_fail : ErrorId
  rest_gateway_compile_contract_slashes rest_gateway_compile_contract_unzip_read : ErrorId
  rest_gateway_compile_contract_unzip_write rest_gateway_compile_contract_unzip_copy : ErrorId
  rest_gateway_compile_contract_unzip rest_gateway_local_store_contract_save : ErrorId
  rest_gateway_local_store_contract_load rest_gateway_local_store_contract_not_found : ErrorId
  rest_gateway_local_store_abi_not_found rest_gateway_local_store_abi_load : ErrorId
  rest_gateway_local_store_abi_parse rest_gateway_local_store_missing_abi : ErrorId
  rest_gateway_invalid_abi rest_gateway_local_store_contract_save_post_deploy : ErrorId
  rest_gateway_friendly_name_clash rpc_call_returned_error rpc_connect_failed : ErrorId
  security_module_plugin_load security_module_plugin_symbol : ErrorId
  security_module_no_auth_context transaction_send_constructor_pack_args : ErrorId
  transaction_send_method_pack_args transaction_send_input_type_unknown : ErrorId
  transaction_send_output_type_unknown transaction_send_gas_estimate_failed : ErrorId
  transaction_send_call_failed_no_revert transaction_send_call_failed_revert_message : ErrorId
  transaction_send_call_failed_revert_no_message : ErrorId
  transaction_send_missing_private_from_orion : ErrorId
  transaction_send_private_tx_with_external_signer : ErrorId
  transaction_send_private_for_and_privacy_group : ErrorId
  transaction_send_nonce_fail_with_privacy_group transaction_send_missing_method : ErrorId
  transaction_send_bad_nonce transaction_send_bad_value transaction_send_bad_gas : ErrorId
  transaction_send_bad_gas_price transaction_send_input_type_bad_number : ErrorId
  transaction_send_input_type_bad_json_type_for_number : ErrorId
  transaction_send_input_type_bad_json_type_for_array : ErrorId
  transaction_send_input_type_bad_null : ErrorId
  transaction_send_input_type_bad_json_type_for_boolean : ErrorId
  transaction_send_input_type_bad_json_type_for_string : ErrorId
  transaction_send_input_type_address : ErrorId
  transaction_send_input_type_bad_json_type_for_address : ErrorId
  transaction_send_input_type_bad_json_type_in_numeric_array : ErrorId
  transaction_send_input_type_bad_byte_outside_range : ErrorId
  transaction_send_input_type_bad_json_type_for_bytes : ErrorId
  transaction_send_input_type_bad_json_type_for_tuple : ErrorId
  transaction_send_input_type_not_supported transaction_send_input_count_mismatch : ErrorId
  transaction_send_input_structure_wrong : ErrorId
  transaction_send_input_in_line_type_array_not_string : ErrorId
  transaction_send_input_in_line_type_unknown transaction_send_msg_type_unknown : ErrorId
  transaction_send_input_too_many_params transaction_send_input_not_assignable : ErrorId
  transaction_send_receipt_check_error transaction_send_receipt_check_timeout : ErrorId
  transaction_call_invalid_block_number unpack_outputs_failed unpack_outputs_mismatch : ErrorId
  unpack_outputs_mismatch_count unpack_outputs_mismatch_nil : ErrorId
  unpack_outputs_mismatch_type unpack_outputs_unknown_type : ErrorId
  unpack_outputs_mismatch_tuple_type unpack_outputs_mismatch_tuple_field_count : ErrorId
  unauthorized webhooks_invalid_msg_headers webhooks_invalid_msg_type_missing : ErrorId
  webhooks_invalid_msg_from_missing webhooks_invalid_msg_type : ErrorId
  webhooks_kafka_unexpected_err_fmt webhooks_kafka_delivery_report_no_meta : ErrorId
  webhooks_kafka_yaml_to_json webhooks_kafka_err webhooks_direct_too_many_inflight : ErrorId
  webhooks_direct_bad_headers : ErrorId

-- An error of this program, or one that code outside it returned, with its text.
pub data Error : Type 0 where
  errorf : ErrorId → Error
  external : String → Error
