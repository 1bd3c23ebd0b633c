-- ===== src/Listener/Children.antt =====
-- The connections that the handlers of src/reactor.rs accept, one after the other.
use native.Mathlib.Nat.{add-zero}
use reactio_rs.Base.{
  ℕ, zero, suc, ◌+◌, ◌≤◌, ◌≡◌, refl, List, [], ◌∷◌, arith, Build, Outcome, done, ◌>>=◌, unwrap,
  usize_max, add_usize-done,
}
use reactio_rs.Listener.{NewStreamConnection, DefaultTcpListenerHandler, on_new_connection}

module _ {P R : Type 0} (new_server_reactor : ℕ → P → R) (build : Build) where
  -- `n` connections.
  unfoldable pub accept_all :
      ℕ
      → DefaultTcpListenerHandler P
      → Outcome (List (NewStreamConnection R) × DefaultTcpListenerHandler P)
  accept_all zero h = done ([], h)
  accept_all (suc n) h = on_new_connection new_server_reactor build h >>= λ (made, h').
      unwrap made >>= λ c. accept_all n h' >>= λ (cs, h''). done (c ∷ cs, h'')

module _ {P R : Type 0} (new_server_reactor : ℕ → P → R) where
  -- The connections with the numbers after `count`.
  abbrev pub children : ℕ → ℕ → P → ℕ → List (NewStreamConnection R)
  children count size param zero = []
  children count size param (suc n) =
      record { reactor = new_server_reactor (count + 1) param; recv_buffer_min_size = size }
      ∷ children (count + 1) size param n

module _ {P R : Type 0} (new_server_reactor : ℕ → P → R) (build : Build) where
  -- As long as the number of connections fits in a `usize`, each one gets a reactor, made with its
  -- number, counted from 1, and the handler's parameter, and the handler counts them.
  pub accept_all_numbers :
      (n : ℕ) (h : DefaultTcpListenerHandler P)
      → h.count_children + n ≤ usize_max
      → accept_all new_server_reactor build n h
        ≡ done (
          children new_server_reactor h.count_children h.recv_buffer_min_size h.server_param n,
          record h { count_children = h.count_children + n },
        )
  unfolding accept_all on_new_connection
  accept_all_numbers zero h fits = rw (add-zero h.count_children) refl
  accept_all_numbers (suc n) h fits =
      let next = record h { count_children = h.count_children + 1 } in
      let rest = accept_all_numbers n next (omega arith) in
      let sum : h.count_children + 1 + n ≡ h.count_children + suc n = omega arith in
      rw (add_usize-done build h.count_children 1 (omega arith), rest, sum) refl
