-- ===== src/MsgReader/Pipe.antt =====
-- A socket to test the reading functions of src/reactor.rs with.
use reactio_rs.Base.{
  take, List-cases, length-take, length-drop, drop, ℕ, refl, List, [], ◌∷◌, ◌++◌, arith, inl, inr,
  length,
}
use reactio_rs.Socket.{Read, io_ok, io_err, would_block}
use reactio_rs.MsgReader.Reading.{IsRead}

-- A source of bytes: those that were read, and those that have arrived and were not.
pub record Pipe : Type 0 where
  pub got : List ℕ
  pub arriving : List ℕ

unfoldable pub read_pipe : Read Pipe
read_pipe x n = elim x.arriving [
  | [] ↦ (io_err would_block, x)
  | b ∷ bs ↦ (
    io_ok (take n (b ∷ bs)),
    record { got = x.got ++ take n (b ∷ bs); arriving = drop n (b ∷ bs) },
  )
]

pub read_pipe-IsRead :
    (x : Pipe) (n : ℕ)
    → IsRead (λ p. p.got) (λ p. length p.arriving) x n (read_pipe x n).0 (read_pipe x n).1
unfolding read_pipe
read_pipe-IsRead x n = elim (List-cases x.arriving) [
  | inl none_left ↦ rw none_left refl
  | inr (b, bs, e) ↦ rw e (
    omega (arith, length-take n (b ∷ bs)),
    refl,
    omega (arith, length-take n (b ∷ bs), length-drop n (b ∷ bs)),
  )
]
