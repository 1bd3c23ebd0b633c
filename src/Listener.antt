-- ===== src/Listener.antt =====
-- src/reactor.rs, `DefaultTcpListenerHandler` and `SimpleIoListener`: handlers of a listening socket
-- that make a reactor for each connection. How a reactor is made is user code, and a parameter.
pub mod Children
use reactio_rs.Base.{ℕ, Option, none, some, Build, Outcome, done, ◌>>=◌, add_usize}
use reactio_rs.ReactorId.{ReactorId, invalid_reactor_id}

pub record NewStreamConnection (R : Type 0) : Type 0 where
  pub reactor : R
  pub recv_buffer_min_size : ℕ

pub record DefaultTcpListenerHandler (P : Type 0) : Type 0 where
  pub reactorid : ReactorId
  pub count_children : ℕ
  pub server_param : P
  pub recv_buffer_min_size : ℕ

module _ {P : Type 0} where
  unfoldable pub new : ℕ → P → DefaultTcpListenerHandler P
  new recv_buffer_min_size param = record {
    reactorid = invalid_reactor_id;
    count_children = 0;
    server_param = param;
    recv_buffer_min_size = recv_buffer_min_size;
  }

  unfoldable pub on_start_listen :
      DefaultTcpListenerHandler P → ReactorId → DefaultTcpListenerHandler P
  on_start_listen h id = record h { reactorid = id }

module _ {P R : Type 0} where
  -- `new_server_reactor` is the trait's function of the reactor's type.
  unfoldable pub on_new_connection :
      (ℕ → P → R)
      → Build
      → DefaultTcpListenerHandler P
      → Outcome (Option (NewStreamConnection R) × DefaultTcpListenerHandler P)
  on_new_connection new_server_reactor build h =
      add_usize build h.count_children 1 >>= λ count_children. done (
        some (record {
          reactor = new_server_reactor count_children h.server_param;
          recv_buffer_min_size = h.recv_buffer_min_size;
        }),
        record h { count_children = count_children },
      )

-- The closure `reactor_creator` has a state of the type `G`.
pub record SimpleIoListener (G : Type 0) : Type 0 where
  pub count_children : ℕ
  pub reactorid : ReactorId
  pub recv_buffer_min_size : ℕ
  pub reactor_creator : G

module _ {G : Type 0} where
  unfoldable pub new_simple : ℕ → G → SimpleIoListener G
  new_simple recv_buffer_min_size reactor_creator = record {
    count_children = 0;
    reactorid = invalid_reactor_id;
    recv_buffer_min_size = recv_buffer_min_size;
    reactor_creator = reactor_creator;
  }

  unfoldable pub on_start_listen_simple : SimpleIoListener G → ReactorId → SimpleIoListener G
  on_start_listen_simple h id = record h { reactorid = id }

module _ {G R : Type 0} where
  unfoldable pub on_new_connection_simple :
      (G → ℕ → Option R × G)
      → Build
      → SimpleIoListener G
      → Outcome (Option (NewStreamConnection R) × SimpleIoListener G)
  on_new_connection_simple create build h = add_usize build h.count_children 1 >>= λ count_children.
      let (made, creator) = create h.reactor_creator count_children in
      let made_connection : Option (NewStreamConnection R) = elim made [
        | none ↦ none
        | some reactor ↦
            some (record { reactor = reactor; recv_buffer_min_size = h.recv_buffer_min_size })
      ] in
      done
        (made_connection, record h { count_children = count_children; reactor_creator = creator })
