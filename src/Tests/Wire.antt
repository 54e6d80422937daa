-- ===== src/Tests/Wire.antt =====
-- Examples of frames, streams and calls of the datapath client.
use pktlab.Base.{ℕ, ◌<◌, ◌≡◌, refl, true, false, List, [], ◌∷◌, ◌++◌, arith}
use pktlab.Error.{Value, null, flag, dict, entry, end, typed, protocol_error}
use pktlab.Effect.{ok}
use pktlab.State.{DatapathStateValue}
use pktlab.Ipc.{
  Codec, Sockets, json, valid, invalid, DatapathErrorModel, DatapathErrorCode, DatapathCommand,
  RequestEnvelope, AckPayload, VersionPayload, HealthStateModel, CommandResult, succeeded,
  response_id, ResponseEnvelope,
}
use pktlab.Ipc.Protocol.{
  pack, frame_payload, read_exact, recv_frame, length_context, encode_request, read_loop,
  send_request, recv_response, parse_response, parse_loaded, envelope, unpack,
}
use pktlab.Ipc.Protocol.Stream.{IsStream, Reads, Breaks, read_exact-Reads, read_exact-Breaks}
use pktlab.Ipc.Protocol.Frames.{recv_frame-frame_payload}
use pktlab.Ipc.Client.{DpdkClient, exchange, read_response, typed_call}
use pktlab.Ipc.Client.Calls.{IsSettled, IsAnswer, exchange_settles, typed_call-IsAnswer}

-- A socket that holds the bytes still to come and delivers them one by one.
abbrev pub one_by_one : Sockets (List ℕ)
one_by_one = record {
  connect = λ path timeout w. (ok tt, w);
  sendall = λ bytes w. (ok tt, w);
  recv = λ n w. elim w [ [] ↦ (ok [], []) | (b ∷ rest) ↦ (ok (b ∷ []), rest) ];
  close = λ w. [];
  request_id = λ w. ("r1", w);
}

one_by_one-IsStream : IsStream one_by_one (λ w. w)
one_by_one-IsStream = record { delivers = go }
  where
    go :
        (n : ℕ) (w : List ℕ)
        → 0 < n
        → pktlab.Ipc.Protocol.Stream.Chunk (λ v. v) n w (one_by_one.recv n w)
    go n [] pos = (refl, omega arith, λ h. refl)
    go n (b ∷ rest) pos = (refl, omega arith, λ h. cc h)

-- Requests are one byte; every response acknowledges the request "r1".
abbrev pub acknowledging : Codec
acknowledging = record {
  dump_request = λ q. 9 ∷ [];
  load_json = λ bytes. json (dict (entry "ok" (flag true) end));
  valid_id = λ s. true;
  validate_success = λ v. valid ("r1", null);
  validate_error = λ v. invalid v;
  validate_ack = λ v. valid (record { message = "done" });
  validate_version = λ v. invalid v;
  validate_health = λ v. invalid v;
  validate_ports = λ v. invalid v;
  validate_stats = λ v. invalid v;
}

-- A socket on which a response of one byte waits for each connection.
abbrev pub answering : Sockets (List ℕ)
answering = record one_by_one {
  connect = λ path timeout w. (ok tt, 0 ∷ 0 ∷ 0 ∷ 1 ∷ 7 ∷ []);
  close = λ w. w;
}

abbrev pub version : VersionPayload
version = record { service = "pktlab-dpdkd"; version = "0.1.0"; dpdk_version = "23.11" }

abbrev pub health : HealthStateModel
health = record {
  state = DatapathStateValue.running;
  message = "ready";
  applied_rule_version = 4;
  ports_ready = true;
  paused = false;
}

-- The responses of a datapath that is healthy.
abbrev pub healthy : Codec
healthy = record acknowledging {
  validate_version = λ v. valid version;
  validate_health = λ v. valid (record { health = health });
}

abbrev pub client : DpdkClient
client = record { socket_path = "/run/dp.sock"; timeout_seconds = 1 }

abbrev request : RequestEnvelope
request = record { id = "r1"; cmd = DatapathCommand.ping }

abbrev acknowledged : CommandResult AckPayload
acknowledged = succeeded "r1" (record { message = "done" })

abbrev response : List ℕ
response = 0 ∷ 0 ∷ 0 ∷ 2 ∷ 7 ∷ 8 ∷ []

read_exact-Reads_example :
    Reads one_by_one
      (λ w. w)
      one_by_one-IsStream
      (5 ∷ 6 ∷ [])
      (3 ∷ [])
      (read_exact one_by_one 2 (5 ∷ 6 ∷ 3 ∷ []))
read_exact-Reads_example =
    read_exact-Reads one_by_one (λ w. w) one_by_one-IsStream (5 ∷ 6 ∷ []) (3 ∷ []) (5 ∷ 6 ∷ 3 ∷ [])
      refl

read_exact-Breaks_example :
    Breaks one_by_one (λ w. w) one_by_one-IsStream 4 3 (read_exact one_by_one 4 (5 ∷ []))
read_exact-Breaks_example =
    read_exact-Breaks one_by_one (λ w. w) one_by_one-IsStream 4 (5 ∷ []) (omega arith)

framed : frame_payload (7 ∷ 8 ∷ []) ≡ ok response
unfolding frame_payload pack
framed = refl

recv_frame-frame_payload_example :
    Reads one_by_one
      (λ w. w)
      one_by_one-IsStream
      (7 ∷ 8 ∷ [])
      (3 ∷ [])
      (recv_frame one_by_one (response ++ 3 ∷ []))
recv_frame-frame_payload_example =
    recv_frame-frame_payload one_by_one (λ w. w) one_by_one-IsStream (7 ∷ 8 ∷ []) response (3 ∷ [])
      (response ++ 3 ∷ []) framed refl

exchange_settles_example :
    IsSettled one_by_one acknowledging
      (exchange one_by_one acknowledging client request (response ++ 3 ∷ []))
exchange_settles_example =
    exchange_settles one_by_one acknowledging client request (response ++ 3 ∷ [])

answered :
    (typed_call one_by_one acknowledging acknowledging.validate_ack client request response).0
    ≡ ok acknowledged
unfolding typed_call exchange read_response send_request recv_response recv_frame read_exact
    read_loop encode_request frame_payload pack unpack parse_response parse_loaded envelope
    pktlab.Error.get_entry
answered = refl

typed_call-IsAnswer_example :
    (a : ResponseEnvelope) × ((exchange one_by_one acknowledging client request response).0 ≡ ok a)
    × (response_id a ≡ "r1")
    × IsAnswer "r1" acknowledged
typed_call-IsAnswer_example =
    typed_call-IsAnswer one_by_one acknowledging acknowledging.validate_ack client request response
      acknowledged answered
