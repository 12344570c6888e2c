-- ===== src/Message.antt =====
-- The messages of proto/ironcoin_pb.proto. An optional field is an `Option`; its getter gives the
-- default where it is not set.
pub mod Ledger
pub mod Codecs
pub mod Rpc
