-- ===== src/SimpleIo/Tests.antt =====
-- A `SimpleIoService` of src/reactor.rs that collects what its sockets receive.
use reactio_rs.Base.{ℕ, refl, List, [], ◌∷◌, ◌++◌, arith, debug, none, Returns, ok, length}
use reactio_rs.MsgReader.Pipe.{Pipe, read_pipe, read_pipe-IsRead}
use reactio_rs.SimpleIo.{
  Handled, SimpleIoReactor, SimpleIoService, new_service, service_on_readable,
}
use reactio_rs.SimpleIo.Drains.{Serves}
use reactio_rs.SimpleIo.Service.{new_service-IsIdle, Served, service_on_readable_isolates}

-- It drops a byte at a time.
abbrev collect : List ℕ → Pipe → (buf : List ℕ) → Handled (List ℕ) Pipe (length buf)
collect seen x buf = record {
  answer = ok 1;
  slice = buf;
  same_size = refl;
  app_data = seen ++ length buf ∷ [];
  context = x;
}

abbrev collector : SimpleIoReactor (List ℕ) Pipe (List ℕ)
collector = record {
  app_data = [];
  on_connected_handler = none;
  on_closed_handler = none;
  on_sock_msg_handler = collect;
}

collector-Serves : Serves collector
collector-Serves seen x buf h = (omega arith, h)

abbrev service : SimpleIoService (List ℕ) Pipe (List ℕ)
service = new_service 2 collector

abbrev pipe : Pipe
pipe = record { got = 1 ∷ []; arriving = 5 ∷ 6 ∷ 7 ∷ [] }

service_on_readable_isolates_example :
    Returns
      (Served (λ p. p.got) (λ p. length p.arriving) debug service pipe)
      (service_on_readable read_pipe debug 4 service pipe)
service_on_readable_isolates_example =
    service_on_readable_isolates (λ p. p.got) (λ p. length p.arriving) read_pipe debug
      read_pipe-IsRead 4 service pipe (new_service-IsIdle 2 collector collector-Serves)
      (omega arith)
