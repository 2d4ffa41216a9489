-- ===== src/Ipc/Tests.antt =====
-- A client that connects, sends and loses its daemon.
use si_log.Base.{◌≡◌, refl, true, false, none, some, List, [], ◌∷◌, ◌+◌}
use si_log.Base.Int.{pos}
use si_log.Ipc.{
  dgram_client_init, set_nonblock, retry, dgram_client_close, Agent, SocketCalls, SendCalls,
  accepted, no_server, client_send, server_recv, dgram_client_send, at_start, client_init,
  client_close, server_init, server_close,
}
use si_log.Ipc.Balance.{opens, closes, holds}
use si_log.Ipc.Descriptors.{
  Call, start_client, send, stop_client, start_server, stop_server, perform_all,
  perform_all-Balanced, AllAllowed,
}
use si_log.Ipc.Send.{send_all, send_all-gone, datagrams, delivered_with, client_send-datagrams}

abbrev socket_five : SocketCalls
socket_five = record {
  fd = some 5;
  get_flags_ok = true;
  set_flags_ok = true;
  path_ok = true;
  attached = true;
}

abbrev no_daemon : SendCalls
no_daemon = record {
  first = no_server;
  reconnect = record socket_five { attached = false };
  second_ok = false;
}

abbrev daemon_back : SendCalls
daemon_back = record { first = accepted; reconnect = socket_five; second_ok = true }

abbrev connected_agent : Agent
connected_agent = record { is_init = true; send_fd = some 5; recv_fd = none }

send_all-gone_example :
    send_all (client_send connected_agent (1 ∷ []) no_daemon).1 ((2 ∷ [], daemon_back) ∷ [])
    ≡ ((client_send connected_agent (1 ∷ []) no_daemon).1, [])
send_all-gone_example =
    send_all-gone connected_agent (1 ∷ []) no_daemon 5 ((2 ∷ [], daemon_back) ∷ []) refl refl refl
      refl

abbrev session : List Call
session =
    start_client socket_five
    ∷ send (1 ∷ []) (record no_daemon { reconnect = socket_five; second_ok = true })
    ∷ stop_client
    ∷ start_server socket_five
    ∷ stop_server
    ∷ []

abbrev fresh : Agent
fresh = record { is_init = true; send_fd = none; recv_fd = none }

session-allowed : AllAllowed fresh session
unfolding client_init client_send client_close server_init server_close dgram_client_init
    set_nonblock dgram_client_send retry dgram_client_close
session-allowed = (refl, (tt, (tt, (refl, (tt, tt)))))

perform_all-Balanced_example :
    holds 5 fresh + opens 5 (perform_all fresh session).1
    ≡ holds 5 (perform_all fresh session).0 + closes 5 (perform_all fresh session).1
perform_all-Balanced_example = perform_all-Balanced fresh session session-allowed 5

client_send-datagrams_example :
    datagrams (client_send connected_agent (1 ∷ []) no_daemon).2
    ≡ delivered_with (client_send connected_agent (1 ∷ []) no_daemon).0 (1 ∷ [])
client_send-datagrams_example = client_send-datagrams connected_agent (1 ∷ []) no_daemon

-- Before `SilogIpcInit` and after `SilogIpcServerClose`, `SilogIpcServerRecv` answers a positive number.
recv_not_init : (server_recv at_start 377 (λ n. none)).0 ≡ pos 1005
unfolding server_recv
recv_not_init = refl
