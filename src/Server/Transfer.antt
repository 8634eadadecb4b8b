-- ===== src/Server/Transfer.antt =====
-- Messages between servers by way of the proxy: the `ProxyHead` of dev/svr/proto/msg_ss.proto and what
-- `ConnectServerMsgTransferService` of dev/svr/common/common_service.cpp writes to it before it sends.
use lsf.Prelude.{ℕ, ◌≡◌, refl}

pub data TransferType : Type 0 where
  by_id : TransferType
  by_hash : TransferType
  by_broadcast : TransferType
  by_random : TransferType
  by_random_except_id : TransferType

pub record ProxyHead : Type 0 where
  pub transfer_type : TransferType
  pub src_server_type : ℕ
  pub dst_server_type : ℕ
  pub src_server_id : ℕ
  pub dst_server_id : ℕ
  pub dst_hash_id : ℕ
  pub session_id : ℕ
  pub dst_except_id : ℕ

-- The server that sends.
pub record Sender : Type 0 where
  pub server_type : ℕ
  pub server_id : ℕ

-- The head of a response, from that of the request.
unfoldable pub transfer_response : Sender → ProxyHead → ProxyHead
transfer_response me request = record request {
  transfer_type = by_id;
  dst_server_type = request.src_server_type;
  dst_server_id = request.src_server_id;
  src_server_type = me.server_type;
  src_server_id = me.server_id;
}

unfoldable pub transfer_message_by_id : Sender → ℕ → ℕ → ProxyHead → ProxyHead
transfer_message_by_id me server_type server_id head = record head {
  transfer_type = by_id;
  dst_server_type = server_type;
  dst_server_id = server_id;
  src_server_type = me.server_type;
  src_server_id = me.server_id;
}

unfoldable pub transfer_message_by_hash : Sender → ℕ → ℕ → ProxyHead → ProxyHead
transfer_message_by_hash me server_type hash_id head = record head {
  transfer_type = by_hash;
  dst_server_type = server_type;
  dst_hash_id = hash_id;
  src_server_type = me.server_type;
  src_server_id = me.server_id;
}

unfoldable pub transfer_message_by_broad_cast : Sender → ℕ → ProxyHead → ProxyHead
transfer_message_by_broad_cast me server_type head = record head {
  transfer_type = by_broadcast;
  dst_server_type = server_type;
  src_server_type = me.server_type;
  src_server_id = me.server_id;
}

unfoldable pub transfer_message_by_random : Sender → ℕ → ProxyHead → ProxyHead
transfer_message_by_random me server_type head = record head {
  transfer_type = by_random;
  dst_server_type = server_type;
  src_server_type = me.server_type;
  src_server_id = me.server_id;
}

unfoldable pub transfer_message_by_random_except_id : Sender → ℕ → ℕ → ProxyHead → ProxyHead
transfer_message_by_random_except_id me server_type except_id head = record head {
  transfer_type = by_random_except_id;
  dst_server_type = server_type;
  src_server_type = me.server_type;
  src_server_id = me.server_id;
  dst_except_id = except_id;
}

-- A response goes to the server, and names the session, that the request came from, whatever way
-- the request was sent.
pub transfer_response-returns :
    (me other : Sender) (type hash : ℕ) (head : ProxyHead)
    → let answer = transfer_response other (transfer_message_by_hash me type hash head) in
      (answer.transfer_type ≡ by_id)
      × ((answer.dst_server_type ≡ me.server_type)
          × ((answer.dst_server_id ≡ me.server_id)
              × ((answer.session_id ≡ head.session_id)
                  × (answer.src_server_type ≡ other.server_type))))
unfolding transfer_response transfer_message_by_hash
transfer_response-returns me other type hash head = (refl, (refl, (refl, (refl, refl))))
