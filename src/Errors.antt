-- ===== src/Errors.antt =====
-- error.hpp and error_info.hpp: the four error domains. A `std::error_code` is a category and a value.
pub mod Messages
mod Tests
use rediscoro.Prelude.{ℕ, Bool, true, false, List, []}

pub data ClientErrc : Type 0 where
  operation_aborted connection_closed resolve_failed resolve_timeout : ClientErrc
  connect_failed connect_timeout connection_reset : ClientErrc
  handshake_failed handshake_timeout write_error connection_lost : ClientErrc
  unsolicited_message request_timeout not_connected : ClientErrc
  already_in_progress queue_full internal_error : ClientErrc

pub data ProtocolErrc : Type 0 where
  tree_not_consumed invalid_type_byte invalid_null invalid_boolean : ProtocolErrc
  invalid_bulk_trailer invalid_double invalid_integer invalid_length : ProtocolErrc
  invalid_map_pairs invalid_state parser_failed invalid_verbatim : ProtocolErrc

pub data ServerErrc : Type 0 where
  redis_error : ServerErrc

pub data AdapterErrc : Type 0 where
  type_mismatch unexpected_null value_out_of_range duplicate_key size_mismatch : AdapterErrc

pub data ErrorCode : Type 0 where
  client : ClientErrc → ErrorCode
  protocol : ProtocolErrc → ErrorCode
  server : ServerErrc → ErrorCode
  adapter : AdapterErrc → ErrorCode

-- The detail is a text, as its bytes.
pub record ErrorInfo : Type 0 where
  pub code : ErrorCode
  pub detail : List ℕ

abbrev pub error_info : ErrorCode → ErrorInfo
error_info c = record { code = c; detail = [] }

pub is_client_error : ErrorCode → Bool
is_client_error (client e) = true
is_client_error _ = false

pub is_protocol_error : ErrorCode → Bool
is_protocol_error (protocol e) = true
is_protocol_error _ = false

pub is_timeout : ErrorCode → Bool
is_timeout (client ClientErrc.resolve_timeout) = true
is_timeout (client ClientErrc.connect_timeout) = true
is_timeout (client ClientErrc.handshake_timeout) = true
is_timeout (client ClientErrc.request_timeout) = true
is_timeout _ = false

pub is_retryable : ErrorCode → Bool
is_retryable (client ClientErrc.connection_lost) = true
is_retryable (client ClientErrc.write_error) = true
is_retryable (client ClientErrc.connection_reset) = true
is_retryable (client ClientErrc.request_timeout) = true
is_retryable (client ClientErrc.handshake_failed) = true
is_retryable (client ClientErrc.unsolicited_message) = true
is_retryable (protocol e) = true
is_retryable _ = false
