-- ===== src/Pingpong.antt =====
-- examples/example/pingpong.rs: a reactor that sends each message back, until it has done so
-- `max_echo` times, and measures how long a message takes. `S` is the socket with the clock that
-- `cpu_now_nanos` reads. `index_99` is the index of `d[(n as f32 * 0.99) as usize]`. The log lines
-- are left out.
pub mod Latency
pub mod Inbound
pub mod Connect
pub mod Reporting
pub mod Frames
pub mod Echoes
pub mod Contract
pub mod Partial
pub mod Messages
pub mod Stream
pub mod Limits
pub mod Greeting
pub mod Wire
mod Tests
use Prim.Native.String.{String, ◌++◌ as ◌<>◌}
use reactio_rs.Base.{
  ℕ, zero, suc, ◌+◌, ◌-◌, ◌/◌, ◌%◌, List, [], ◌∷◌, ◌++◌, Bool, true, false, ◌&&◌, Build, debug,
  release, Outcome, done, panic, ◌>>=◌, ◌>>◌, unwrap, debug_assert, Result, ok, err, sub_usize, ltb,
  leb, ◌==◌, if◌then◌else◌, length, get_elem?, get_or, take, drop, replicate,
}
use reactio_rs.Base.Int.{ℤ, pos, negsuc, pos_part, neg_part, ltb_ℤ, leb_ℤ, as_i64}
use reactio_rs.ReactorId.{ReactorId, invalid_reactor_id}
use reactio_rs.Socket.{Write}
use reactio_rs.MsgSender.{SendError}
use reactio_rs.MsgReader.{expect_msg_size, drop_msg_size, ReadError, rejected, Dispatched}
use reactio_rs.Command.{CmdError, immediate, send_close}
use reactio_rs.Manager.{Context}
use reactio_rs.Reactor.Sending.{context_send_or_que}
use reactio_rs.Utils.Timer.{add_ℤ, sub_ℤ, div_ℤ, as_u64, i64_of}
use reactio_rs.Utils.Bytes.{bytes_to_ref, bytes_to_ref_mut}

pub record MsgHeader : Type 0 where
  pub body_len : ℕ
  pub send_time : ℤ

pub record Msg : Type 0 where
  pub header : MsgHeader
  pub payload : List ℕ

unfoldable pub new_msg : Msg
new_msg = record { header = record { body_len = 0; send_time = pos 0 }; payload = [] }

abbrev pub msg_header_size : ℕ
msg_header_size = 10

abbrev pub latency_batch_size : ℤ
latency_batch_size = pos 10000

abbrev pub i32_max : ℤ
i32_max = pos 0x7fff_ffff

pub record PingpongReactor : Type 0 where
  pub name : String
  pub parent_listener : ReactorId
  pub is_client : Bool
  pub max_echo : ℤ
  pub count_echo : ℤ
  pub latency_batch : ℤ
  pub last_sent_time : ℤ
  pub single_trip_durations : List ℤ
  pub round_trip_durations : List ℤ
  pub last_recv_msg : Msg

unfoldable pub new : String → Bool → ℤ → ℤ → PingpongReactor
unfolding new_msg
new name is_client max_echo latency_batch = record {
  name = name;
  parent_listener = invalid_reactor_id;
  is_client = is_client;
  max_echo = max_echo;
  count_echo = pos 0;
  latency_batch = latency_batch;
  last_sent_time = pos 0;
  single_trip_durations = [];
  round_trip_durations = [];
  last_recv_msg = new_msg;
}

unfoldable pub new_client : String → ℤ → ℤ → PingpongReactor
new_client name max_echo latency_batch = new name true max_echo latency_batch

unfoldable pub default : PingpongReactor
default = new "" false i32_max latency_batch_size

pub record ServerParam : Type 0 where
  pub name : String
  pub latency_batch : ℤ

-- `{}` of a number below 10^`fuel`.
abbrev pub digit_text : ℕ → String
digit_text n = get_or ("0" ∷ "1" ∷ "2" ∷ "3" ∷ "4" ∷ "5" ∷ "6" ∷ "7" ∷ "8" ∷ "9" ∷ []) n ""

abbrev pub number_text : ℕ → ℕ → String
number_text zero n = ""
number_text (suc fuel) n =
    let more = number_text fuel (n / 10) in
    if ltb n 10 then digit_text n else more <> digit_text (n % 10)

-- `format!("{}-{}", name, count)`
unfoldable pub child_name : String → ℕ → String
child_name name count = name <> ("-" <> number_text 20 count)

unfoldable pub new_server_reactor : ℕ → ServerParam → PingpongReactor
new_server_reactor count p = new (child_name p.name count) false i32_max p.latency_batch

-- `&buf[a..b]`
abbrev pub slice : ℕ → ℕ → List ℕ → Outcome (List ℕ)
slice a b buf = if leb a b && leb b (length buf) then done (take (b - a) (drop a buf)) else panic

-- A call with `&mut buf[a..b]`, and the buffer afterwards.
abbrev pub with_slice : ℕ → ℕ → (List ℕ → Outcome (List ℕ)) → List ℕ → Outcome (List ℕ)
with_slice a b f buf =
    slice a b buf >>= λ part. f part >>= λ part'. done (take a buf ++ (part' ++ drop b buf))

-- The errors of the callbacks; those of `on_inbound_message` are told apart by a number.
pub data PingpongError : Type 0 where
  sending : SendError → PingpongError
  commanding : CmdError → PingpongError

abbrev pub max_echo_reached : ReadError
max_echo_reached = rejected 0

abbrev pub send_failed : ReadError
send_failed = rejected 1

module _ {S C R H K : Type 0} (cpu_now_nanos : S → ℤ × S) where
  abbrev pub read_clock : Context S C R H String K → ℤ × Context S C R H String K
  read_clock ctx = let (now, sock) = cpu_now_nanos ctx.sock in (now, record ctx { sock = sock })
