-- ===== src/Tests/Registering.antt =====
-- Examples for registration.
use meet_your_match.Prelude.{
  ℕ, ◌≡◌, refl, inr, false, Bool, true, none, some, [], ◌∷◌, arith, replicate, ◌⊎◌,
}
use meet_your_match.Python.{ok, raised, attribute_error, Floats}
use meet_your_match.Struct.{Bytes, from_bytes}
use meet_your_match.Text.{decimal, join_dots}
use meet_your_match.Utf8.{encode_text, decode_text}
use meet_your_match.Packet.{PacketData, unpackit, new_packet}
use meet_your_match.ConnectionLog.{log_ip}
use meet_your_match.Registration.{Register, register_next}
use meet_your_match.Registration.Failure.{registering_raises}
use meet_your_match.Registration.Latencies.{unpack_host_latency_info}
use meet_your_match.Registration.Replies.{IsSendable, Sends, refusal_is_sent}
use meet_your_match.LockedList.{new_list}
use meet_your_match.ConnectionLog
use meet_your_match.Sockets.{Received, buffer_incoming}
use meet_your_match.Program.{Program, main_proc, start_server, match_inc, after, done}
use meet_your_match.Program.Answering.{Refused, matchmake_and_respond-Refused}
use meet_your_match.Matchmaker.Threads.{match_receive}
use meet_your_match.Matchmaker.{Server, query_respond, matchmake_and_respond}
use meet_your_match.Matchmaker.Replies.{Answers, Says, Fails, query_is_answered}
use meet_your_match.Constants.{
  cl_status_matching, cl_status_matching_host, sv_error_not_registering,
}
use meet_your_match.Tests.Samples.{
  seconds, bits, bits-IsDouble, at, registry, new_log, lobby, ascii, member_at,
}

-- a datagram with this status, and zeros for the rest
abbrev datagram : ℕ → Bytes
datagram status = status ∷ replicate 507 0

abbrev seen : (fl : Floats) → ℕ → PacketData fl.Float
seen fl status = record {
  status = status;
  flags = 0;
  time_stamp = fl.decode (replicate 8 0);
  name = replicate 16 0;
  admin_key = some (replicate 16 0);
  client_data = replicate 460 0;
}

registering_raises_example :
    ((register_next seconds 20 20 (registry seconds ((datagram 1, at 2) ∷ []) 5)).0
      ≡ raised attribute_error)
    × ((register_next seconds 20 20 (registry seconds ((datagram 1, at 2) ∷ []) 5)).1.sent ≡ [])
unfolding unpackit log_ip decode_text
registering_raises_example =
    registering_raises seconds 20 20 (registry seconds ((datagram 1, at 2) ∷ []) 5) (datagram 1)
      (at 2) [] (seen seconds 1) refl refl refl refl refl

new_packet-IsSendable : IsSendable (new_packet bits)
unfolding encode_text
new_packet-IsSendable = (
  (new_packet bits).name,
  record {
    status = omega arith;
    flags = omega arith;
    name_bytes = refl;
    name_length = omega arith;
    data_length = omega arith;
  },
)

-- a client that is not registering
abbrev stray : Register Bool
stray = registry bits ((datagram 5, at 2) ∷ []) true

refusal_is_sent_example :
    ((register_next bits true true stray).0 ≡ ok tt)
    × Sends bits (at 2) sv_error_not_registering stray (register_next bits true true stray).1
    × IsSendable (register_next bits true true stray).1.return_pdata
unfolding unpackit log_ip decode_text
refusal_is_sent_example =
    refusal_is_sent bits bits-IsDouble true true stray (datagram 5) (at 2) [] (seen bits 5) 0
      new_packet-IsSendable refl refl refl refl (inr (λ e. omega (arith, e)))

-- The matchmaking process is asked by the host of the lobby.
abbrev asked : Server Bool
asked = record {
  in_pipe = [];
  incoming = (datagram cl_status_matching_host, at 1) ∷ [];
  connect_log = new_log true;
  match_data = lobby;
  responses = new_list;
  prev_time = false;
  matchmake_wait_ctr = false;
}

query_is_answered_example :
    ((k : ℕ) × ((query_respond bits ascii true true asked).0 ≡ ok tt)
      × Answers bits (at 1) k asked (query_respond bits ascii true true asked).1
      × Says
          (at 1)
          cl_status_matching_host
          0
          k
          lobby
          (query_respond bits ascii true true asked).1.match_data)
    ⊎ (Fails (at 1) cl_status_matching_host 0 lobby
        × ((query_respond bits ascii true true asked).0 ≡ raised attribute_error)
        × ((query_respond bits ascii true true asked).1.responses ≡ asked.responses)
        × ((query_respond bits ascii true true asked).1.match_data
            ≡ record lobby { locked = true }))
unfolding unpackit log_ip decode_text
query_is_answered_example =
    query_is_answered bits ascii bits-IsDouble true true asked (datagram cl_status_matching_host)
      (at 1) [] (seen bits cl_status_matching_host) 0 refl refl refl refl refl refl

-- The program, once a client has asked.
abbrev begun : Program Bool
begun = main_proc bits true member_at false

abbrev questioned : Program Bool
questioned = record begun {
  server =
      (match_receive true (Received.datagram (datagram cl_status_matching, at 2)) begun.server).1;
}

matchmake_and_respond-Refused_example :
    (k : ℕ) × ((matchmake_and_respond bits ascii false true (λ _. true) questioned.server).0
      ≡ ok tt)
    × Answers bits
        (at 2)
        k
        questioned.server
        (matchmake_and_respond bits ascii false true (λ _. true) questioned.server).1
    × Refused bits ascii bits-IsDouble 0 k
unfolding main_proc start_server ConnectionLog.init match_receive buffer_incoming unpackit log_ip
    decode_text
matchmake_and_respond-Refused_example =
    matchmake_and_respond-Refused bits ascii bits-IsDouble true member_at false questioned
      (after (match_inc true (Received.datagram (datagram cl_status_matching, at 2)) begun)
        (done questioned))
      false true (λ _. true) (datagram cl_status_matching) (at 2) [] (seen bits cl_status_matching)
      0 refl refl refl (λ s. refl) refl

-- One latency is read: of 10.0.0.1 at port 7777, in a packet whose float is 1.0.
latency_packet : PacketData Bool
latency_packet = record (new_packet bits) {
  client_data = 1 ∷ 10 ∷ 0 ∷ 0 ∷ 1 ∷ 97 ∷ 30 ∷ 0 ∷ 0 ∷ 0 ∷ 0 ∷ 0 ∷ 0 ∷ 0 ∷ 0 ∷ 0xf0 ∷ 0x3f ∷ [];
}

latency_run :
    unpack_host_latency_info bits latency_packet (some []) ≡ (ok tt, some ((at 1, true) ∷ []))
unfolding unpack_host_latency_info latency_packet from_bytes decimal join_dots
latency_run = refl

-- A client has an empty slot, so nothing is noted.
no_slot_run : unpack_host_latency_info bits latency_packet none ≡ (ok tt, none)
unfolding unpack_host_latency_info latency_packet from_bytes decimal join_dots
no_slot_run = refl
