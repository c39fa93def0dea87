-- ===== src/Server/Client.antt =====
-- raft-client/src/main.rs: the request of a client and what it makes of the answer. The two framing
-- functions of the client are those of Server/Codec.antt, word by word. Printing is left out.
use raft_rupee.Base.{true, false, Option}
use raft_rupee.Types.{NodeId, zero_term}
use raft_rupee.Message.{Bytes, Message, MessageKind}
use raft_rupee.Server.Os.{Error, Result, ok, err, stuck, Op, ◌>>◌}
use raft_rupee.Server.Codec.{Wire, TcpStream, send_framed_msg, recv_framed_msg}
use raft_rupee.Server.Main.{client_id}

unfoldable pub request : Bytes → Message
request payload = record {
  from = client_id;
  to = 0;
  term = zero_term;
  kind = MessageKind.client_request payload;
}

-- What the client prints.
pub data Report : Type 0 where
  transaction_committed : Report
  redirect : (leader_hint : Option NodeId) → Report
  unexpected_response : (other : Message) → Report
  timeout_or_error : (e : Error) → Report
  out_of_fuel : Report

unfoldable pub answered : MessageKind → Message → Report
answered (MessageKind.client_response true leader_hint) other = transaction_committed
answered (MessageKind.client_response false leader_hint) other = redirect leader_hint
answered (MessageKind.request_vote _ _) other = unexpected_response other
answered (MessageKind.request_vote_response _) other = unexpected_response other
answered (MessageKind.pre_vote _ _) other = unexpected_response other
answered (MessageKind.pre_vote_response _) other = unexpected_response other
answered (MessageKind.append_entries _ _ _ _) other = unexpected_response other
answered (MessageKind.append_entries_response _ _ _) other = unexpected_response other
answered (MessageKind.install_snapshot _ _ _ _ _) other = unexpected_response other
answered MessageKind.install_snapshot_response other = unexpected_response other
answered (MessageKind.client_request _) other = unexpected_response other

unfoldable pub report : Result Message → Report
report (ok other) = answered other.kind other
report (err e) = timeout_or_error e
report stuck = out_of_fuel

-- `main` from the open connection on.
unfoldable pub submit : Wire → Bytes → Op TcpStream Report
submit w payload = do
  send_framed_msg w (request payload)
  λ stream. let received = recv_framed_msg w stream in (ok (report received.0), received.1)
