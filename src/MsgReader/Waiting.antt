-- ===== src/MsgReader/Waiting.antt =====
-- src/reactor.rs's `MsgReader` between two calls.
use reactio_rs.Base.{ℕ, ◌<◌, ◌≡◌, ◌⊎◌, inl, List, Result, ok, err, length}
use reactio_rs.MsgReader.{MsgReader, ReadError, Dispatcher, unread}
use reactio_rs.MsgReader.Window.{IsWindow}
use reactio_rs.MsgReader.Awaits.{Awaits}
use reactio_rs.MsgReader.Progress.{IsLeft}

-- A reader between two calls: no byte is left, or the beginning of a message whose size is not known
-- yet or is more than what is there. The size is what a call of the dispatcher answered that was given
-- these bytes, or all but those that arrived later.
pub record IsWaiting {X : Type 0} (dispatcher : Dispatcher X) (r : MsgReader) : Type 0 where
  pub window : IsWindow r
  pub front : r.startpos ≡ 0
  pub partial :
      (length (unread r) ≡ 0) ⊎ ((r.decoded_msgsize ≡ 0) ⊎ (length (unread r) < r.decoded_msgsize))
  pub awaits : Awaits dispatcher (unread r) r.decoded_msgsize

pub IsLeft-partial :
    (res : Result ReadError (Unit {0})) (rest : List ℕ) (decoded : ℕ)
    → IsLeft res rest decoded
    → (length rest ≡ 0) ⊎ ((decoded ≡ 0) ⊎ (length rest < decoded))
IsLeft-partial (ok _) rest decoded left = left
IsLeft-partial (err e) rest decoded left = inl left.0
