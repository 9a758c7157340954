-- ===== src/Lab2/Membership/Rounds.antt =====
-- lab2/src/membership.cpp: a request that reaches a follower, and the answer that the leader waits for.
use cs7610_f.Prelude.{
  ℕ, ◌≡◌, List, [], ◌∷◌, ◌++◌, arith, assign, ℕ_discrete, IsWord, String, check, fatal, ◌==◌,
}
use cs7610_f.Lab2.Message.{RequestMsg, Message, OkMsg}
use cs7610_f.Lab2.SerDe.{get_msg_type, serialize_request_msg, serialize_ok_msg, deserialize_ok_msg}
use cs7610_f.Lab2.Sockets.{TcpClient, Arrival}
use cs7610_f.Lab2.Membership.State.{MembershipService, World, create_ok_msg}
use cs7610_f.Lab2.Membership.Answers.{ok_answer}

-- The checks of waitForOkMsg let pass exactly the answers to the request that is pending.
pub ok_answer-create_ok_msg :
    (s : MembershipService) (expected_request_id : ℕ) (rest : List ℕ) (sender : String)
    → IsWord s.pending_request.request_id
    → IsWord s.view_id
    → ok_answer expected_request_id
        (record { buffer = serialize_ok_msg (create_ok_msg s) ++ rest; n = 12; sender = sender })
      ≡ check (s.pending_request.request_id == expected_request_id) fatal
unfolding ok_answer create_ok_msg serialize_ok_msg get_msg_type deserialize_ok_msg
ok_answer-create_ok_msg s expected rest sender w v = ground arith

-- The packet that holds the request, as TcpClient::receive returns it.
abbrev pub request_packet : TcpClient → RequestMsg → Message
request_packet client msg = record {
  buffer = serialize_request_msg msg;
  n = 20;
  sender = client.hostname;
}

-- The follower once it has read the request.
abbrev pub asked : World → TcpClient → RequestMsg → List Arrival → World
asked w client msg later = record {
  member = record w.member { pending_request = msg };
  network = record w.network { inbox = assign ℕ_discrete client.sock_fd later w.network.inbox };
}

-- The OkMsg, of type 2, for a request and a view.
abbrev pub ok_for : ℕ → ℕ → OkMsg
ok_for request_id view_id = record {
  msg_type = 2;
  request_id = request_id;
  current_view_id = view_id;
}

-- And once it has answered the request of that id, under its own view id.
abbrev pub answered : World → TcpClient → ℕ → World
answered w client request_id = record w {
  network = record w.network {
    sent =
        w.network.sent
        ++ ((client.sock_fd, serialize_ok_msg (ok_for request_id w.member.view_id)) ∷ []);
  };
}
