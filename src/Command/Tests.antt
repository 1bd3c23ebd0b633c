-- ===== src/Command/Tests.antt =====
-- Commands of src/reactor.rs at concrete values. Reactors, handlers, user commands and completions
-- are numbers.
use reactio_rs.Base.{ℕ, ◌≡◌, refl, [], ◌∷◌, true, ok, err}
use reactio_rs.ReactorId.{ReactorId, invalid_reactor_id}
use reactio_rs.Command.{
  needs_invalid_id, needs_valid_id, immediate, new_connect, close_socket, user_cmd, Channel,
  check_target, send, send_cmd, send_connect, send_close, send_user_cmd,
}
use reactio_rs.Command.Send.{SendResult, send_cmd_result}

abbrev id : ReactorId
id = record { sockslot = 4; ver = 9 }

-- One command waits in the queue.
abbrev waiting : Channel ℕ ℕ ℕ ℕ
waiting = record {
  queue = record { reactorid = id; cmd = close_socket; deferred = immediate; completion = 1 } ∷ [];
  connected = true;
}

refused :
    ((send_user_cmd waiting invalid_reactor_id 5 immediate 2).0 ≡ err needs_valid_id)
    × ((send_cmd waiting id (new_connect 1 "host" 64) immediate 2).0 ≡ err needs_invalid_id)
unfolding send_user_cmd send_cmd check_target
refused = (refl, refl)

sent :
    ((send_connect waiting "host" 64 1 immediate 2).0 ≡ ok tt)
    × ((send_close waiting id immediate 2).0 ≡ ok tt)
unfolding send_connect send_close send_cmd check_target send
sent = (refl, refl)

send_cmd_result_example :
    SendResult waiting
      (record { reactorid = id; cmd = user_cmd 5; deferred = immediate; completion = 2 })
      (send_cmd waiting id (user_cmd 5) immediate 2)
send_cmd_result_example = send_cmd_result waiting id (user_cmd 5) immediate 2
