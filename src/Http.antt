-- ===== src/Http.antt =====
-- HTTP messages and their parsers: src/http/http_message.cc, http_request.cc, http_response.cc,
-- http_message_sequence.hh, http_response_parser.cc, tokenize.hh and mime_type.cc.
pub mod Message
pub mod Request
pub mod Sequence
pub mod Tokenize
pub mod Response
