-- ===== src/Errors/Messages.antt =====
-- impl/error.ipp and error_info.hpp: the texts of errors.
use rediscoro.Prelude.{ℕ, codes, List, [], ◌∷◌, ◌++◌}
use rediscoro.Errors.{
  ClientErrc, ProtocolErrc, ServerErrc, AdapterErrc, ErrorCode, client, protocol, server, adapter,
  ErrorInfo,
}

pub client_message : ClientErrc → List ℕ
client_message ClientErrc.operation_aborted = codes "operation aborted"
client_message ClientErrc.connection_closed = codes "connection closed"
client_message ClientErrc.resolve_failed = codes "resolve failed"
client_message ClientErrc.resolve_timeout = codes "resolve timeout"
client_message ClientErrc.connect_failed = codes "connect failed"
client_message ClientErrc.connect_timeout = codes "connect timeout"
client_message ClientErrc.connection_reset = codes "connection reset"
client_message ClientErrc.handshake_failed = codes "handshake failed"
client_message ClientErrc.handshake_timeout = codes "handshake timeout"
client_message ClientErrc.write_error = codes "write error"
client_message ClientErrc.connection_lost = codes "connection lost"
client_message ClientErrc.unsolicited_message = codes "unsolicited message"
client_message ClientErrc.request_timeout = codes "request timeout"
client_message ClientErrc.not_connected = codes "not connected"
client_message ClientErrc.already_in_progress = codes "already in progress"
client_message ClientErrc.queue_full = codes "queue full"
client_message ClientErrc.internal_error = codes "internal error"

pub protocol_message : ProtocolErrc → List ℕ
protocol_message ProtocolErrc.tree_not_consumed = codes "resp3 tree not consumed"
protocol_message ProtocolErrc.invalid_type_byte = codes "resp3 invalid type byte"
protocol_message ProtocolErrc.invalid_null = codes "resp3 invalid null"
protocol_message ProtocolErrc.invalid_boolean = codes "resp3 invalid boolean"
protocol_message ProtocolErrc.invalid_bulk_trailer = codes "resp3 invalid bulk trailer"
protocol_message ProtocolErrc.invalid_verbatim = codes "resp3 invalid verbatim"
protocol_message ProtocolErrc.invalid_double = codes "resp3 invalid double"
protocol_message ProtocolErrc.invalid_integer = codes "resp3 invalid integer"
protocol_message ProtocolErrc.invalid_length = codes "resp3 invalid length"
protocol_message ProtocolErrc.invalid_map_pairs = codes "resp3 invalid map pairs"
protocol_message ProtocolErrc.invalid_state = codes "resp3 invalid state"
protocol_message ProtocolErrc.parser_failed = codes "resp3 parser failed"

pub server_message : ServerErrc → List ℕ
server_message ServerErrc.redis_error = codes "redis error reply"

pub adapter_message : AdapterErrc → List ℕ
adapter_message AdapterErrc.type_mismatch = codes "type mismatch"
adapter_message AdapterErrc.unexpected_null = codes "unexpected null"
adapter_message AdapterErrc.value_out_of_range = codes "value out of range"
adapter_message AdapterErrc.duplicate_key = codes "duplicate key"
adapter_message AdapterErrc.size_mismatch = codes "size mismatch"

-- `category().name()` and `message()`.
pub category_name : ErrorCode → List ℕ
category_name (client e) = codes "rediscoro.client"
category_name (protocol e) = codes "rediscoro.resp3"
category_name (server e) = codes "rediscoro.server"
category_name (adapter e) = codes "rediscoro.adapter"

pub code_message : ErrorCode → List ℕ
unfolding client_message protocol_message server_message adapter_message
code_message (client e) = client_message e
code_message (protocol e) = protocol_message e
code_message (server e) = server_message e
code_message (adapter e) = adapter_message e

pub append_detail : ErrorInfo → List ℕ → ErrorInfo
append_detail e [] = e
append_detail e (c ∷ s) = record e { detail = joined e.detail }
  where
    joined : List ℕ → List ℕ
    joined [] = c ∷ s
    joined (d ∷ ds) = (d ∷ ds) ++ codes " " ++ (c ∷ s)

-- Every code has a value other than 0, so there is always a headline.
pub in_parentheses : List ℕ → List ℕ
in_parentheses [] = []
in_parentheses (d ∷ ds) = codes " (" ++ (d ∷ ds) ++ codes ")"

unfoldable pub to_string : ErrorInfo → List ℕ
unfolding category_name code_message in_parentheses
to_string e = category_name e.code ++ codes ": " ++ code_message e.code ++ in_parentheses e.detail
