-- ===== src/Pingpong/Tests.antt =====
-- The reactor of examples/example/pingpong.rs on a concrete socket.
use reactio_rs.Base.{
  inr, take, ◌⊎◌, ◌<◌, ok, ℕ, ◌+◌, ◌≤◌, ◌≡◌, refl, sym, subst, length-replicate, List, [], ◌∷◌,
  ◌++◌, true, inl, arith, debug, release, done, panic, err, Returns, length, replicate,
}
use reactio_rs.Base.Int.{pos}
use reactio_rs.MsgReader.{expect_msg_size, MsgReader, unread, try_dispatch_all}
use reactio_rs.ReactorId.{invalid_reactor_id}
use reactio_rs.Pingpong
use reactio_rs.Pingpong.{PingpongReactor, new_client, String, max_echo_reached}
use reactio_rs.Pingpong.Inbound.{full, decode_size, on_inbound_message}
use reactio_rs.Pingpong.Connect.{send_msg}
use reactio_rs.Pingpong.Frames.{frame, begun_size}
use reactio_rs.Utils.Bytes.{le_value}
use reactio_rs.Pingpong.Wire.{
  write, write-IsSocket, write-MakesProgress, now, last, last_within, ctx, room,
}
use reactio_rs.Pingpong.Echoes.{IsConfigured, IsEcho}
use reactio_rs.Pingpong.Contract.{as_dispatcher}
use reactio_rs.Pingpong.Partial.{on_inbound_message_partial}
use reactio_rs.Pingpong.Messages.{Messages, stream, AreEchoed}
use reactio_rs.Pingpong.Stream.{try_dispatch_all_echoes}
use reactio_rs.Pingpong.Limits.{on_inbound_message_spent, on_inbound_message-debug_panics}
use reactio_rs.Pingpong.Greeting.{SendsBytes, send_msg-on_inbound_message, send_msg_cuts}

-- A client that sends three messages back, and reports for ten.
abbrev client : PingpongReactor
client = record {
  name = "client";
  parent_listener = invalid_reactor_id;
  is_client = true;
  max_echo = pos 3;
  count_echo = pos 0;
  latency_batch = pos 10;
  last_sent_time = pos 0;
  single_trip_durations = [];
  round_trip_durations = [];
  last_recv_msg = record { header = record { body_len = 0; send_time = pos 0 }; payload = [] };
}

is_new : new_client "client" (pos 3) (pos 10) ≡ client
unfolding new_client Pingpong.new
is_new = refl

client-IsConfigured : IsConfigured client
client-IsConfigured = record {
  limit = omega arith;
  batch_size = 10;
  batch = refl;
  two = omega arith;
}

-- Two messages, and a byte of the next.
abbrev two : Messages
two = (pos 3, 65 ∷ 66 ∷ []) ∷ (pos 4, 67 ∷ []) ∷ []

abbrev reader : MsgReader
reader = record {
  recv_buffer =
      2 ∷ 0 ∷ 3 ∷ 0 ∷ 0 ∷ 0 ∷ 0 ∷ 0 ∷ 0 ∷ 0 ∷ 65 ∷ 66 ∷ 1 ∷ 0 ∷ 4 ∷ 0 ∷ 0 ∷ 0 ∷ 0 ∷ 0 ∷ 0 ∷ 0 ∷ 67
      ∷ 5 ∷ [];
  min_reserve = 4;
  startpos = 0;
  bufsize = 24;
  decoded_msgsize = 0;
}

window : unread reader ≡ stream two (5 ∷ [])
unfolding frame
window = refl

try_dispatch_all_echoes_example :
    Returns
      (λ (res, reader', x).
        AreEchoed write (λ wire. wire) two (5 ∷ []) client ctx res (unread reader') x)
      (try_dispatch_all
        (as_dispatcher (on_inbound_message write now release last))
        release
        reader
        24
        (done (client, ctx)))
try_dispatch_all_echoes_example =
    try_dispatch_all_echoes write-IsSocket write-MakesProgress now (λ s. omega arith) (λ s. refl)
      last last_within two (5 ∷ []) reader 24 client ctx
      (record { start = omega arith; inside = omega arith }) window
      (omega arith, omega arith, (omega arith, omega arith, tt)) (inl (omega arith)) (inl refl)
      (omega arith) client-IsConfigured room

-- The header and one byte of a message of three.
abbrev begun : List ℕ
begun = 3 ∷ 0 ∷ 7 ∷ 0 ∷ 0 ∷ 0 ∷ 0 ∷ 0 ∷ 0 ∷ 0 ∷ 65 ∷ []

on_inbound_message_partial_example :
    (on_inbound_message write now debug last (client, ctx) begun 11 0
      ≡ done (record { answer = ok (expect_msg_size 13); slice = begun; context = (client, ctx) }))
    × (((11 < 10) × (begun_size begun ≡ 0))
        ⊎ ((begun_size begun ≡ le_value (take 2 begun) + 10) × (11 < begun_size begun)))
on_inbound_message_partial_example =
    on_inbound_message_partial write now debug last client ctx begun 11 (inr (omega arith))

-- With its three messages sent back, the client closes.
abbrev spent : PingpongReactor
spent = record client { count_echo = pos 3 }

on_inbound_message_spent_example :
    Returns
      (λ d.
        (d.answer ≡ err max_echo_reached)
        × ((d.context).1.sender ≡ ctx.sender)
        × ((d.context).1.sock ≡ [])
        × ((d.context).0.count_echo ≡ pos 3)
        × ((d.context).0.last_recv_msg
            ≡ record { header = record { body_len = 1; send_time = pos 3 }; payload = 65 ∷ [] }))
      (on_inbound_message write now release last (spent, ctx) (frame (pos 3) (65 ∷ []) ++ []) 11 0)
on_inbound_message_spent_example =
    on_inbound_message_spent write now last spent ctx (pos 3) (65 ∷ []) [] 11 10 last_within
      (omega arith) (omega arith) (omega arith) refl (omega arith)

-- Two messages of one read.
on_inbound_message-debug_panics_example :
    on_inbound_message write now debug last (client, ctx) reader.recv_buffer 24 0 ≡ panic
on_inbound_message-debug_panics_example =
    on_inbound_message-debug_panics write now last (client, ctx) reader.recv_buffer 24 (omega arith)
      (omega arith)

send_msg-on_inbound_message_example :
    (bytes : List ℕ) × Returns
      (λ (res, r', ctx').
        (r' ≡ client)
        × (ctx'.cmd_sender ≡ ctx.cmd_sender)
        × SendsBytes write (λ wire. wire) ctx bytes res ctx')
      (send_msg write now release client ctx (104 ∷ 105 ∷ []))
    × Returns
        (λ d. IsEcho write (λ wire. wire) (104 ∷ 105 ∷ []) (9 ∷ []) (pos 7) client ctx d.answer d)
        (on_inbound_message write now release last (client, ctx) (bytes ++ 9 ∷ []) 13 0)
send_msg-on_inbound_message_example =
    send_msg-on_inbound_message write-IsSocket write-MakesProgress now (λ s. refl)
      (λ s. omega arith) last last_within client client ctx ctx (104 ∷ 105 ∷ []) (9 ∷ []) 13
      (omega arith) room (omega arith) client-IsConfigured room

long_text : List ℕ
long_text = replicate 0x1_0000 120

long_text_reaches : 0x1_0000 ≤ length long_text
unfolding long_text
long_text_reaches =
    subst (λ n. 0x1_0000 ≤ n) (sym (length-replicate {A = ℕ} 0x1_0000 120)) (omega arith)

send_msg_cuts_example :
    (bytes : List ℕ) × Returns
      (λ (res, r', ctx').
        (r' ≡ client)
        × (ctx'.cmd_sender ≡ ctx.cmd_sender)
        × SendsBytes write (λ wire. wire) ctx bytes res ctx')
      (send_msg write now release client ctx long_text)
    × ((n : ℕ) × (decode_size debug (bytes ++ []) 0 ≡ done (full n))
        × (n + 0x1_0000 ≤ length bytes))
send_msg_cuts_example =
    send_msg_cuts write-IsSocket write-MakesProgress now (λ s. refl) client ctx long_text [] debug
      long_text_reaches room
