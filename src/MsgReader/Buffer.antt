-- ===== src/MsgReader/Buffer.antt =====
-- The window of src/reactor.rs's `MsgReader` when the buffer grows and when bytes are read into it.
use mathlib.Core.List.{append_assoc}
use reactio_rs.Base.{
  ℕ, zero, suc, ◌+◌, ◌-◌, ◌*◌, ◌≤◌, ◌≡◌, refl, sym, ◌∙◌, ap, List, [], ◌∷◌, ◌++◌, arith, ltb,
  Bool-cases, inl, inr, length, take, drop, replicate, length-take, length-drop, length-append,
  drop-append, take-append, take-append-drop,
}
use reactio_rs.MsgReader.{MsgReader, unread, reserve, fill}
use reactio_rs.MsgReader.Window.{IsWindow}
use Prim.Native.Nat.{max}

take-part : (n : ℕ) (xs ys : List ℕ) → n ≤ length xs → take n (xs ++ ys) ≡ take n xs
take-part zero xs ys h = refl
take-part (suc n) [] ys h = absurd (omega arith)
take-part (suc n) (x ∷ xs) ys h = ap (◌∷◌ x) (take-part n xs ys (omega arith))

-- The window as the end of what was read.
pub unread-cut :
    (r : MsgReader) → IsWindow r → unread r ≡ drop r.startpos (take r.bufsize r.recv_buffer)
unread-cut r w =
    let a = take r.bufsize r.recv_buffer in
    let size : length a ≡ r.bufsize =
      omega (arith, length-take r.bufsize r.recv_buffer, w.inside) in
    let cut : drop r.startpos r.recv_buffer ≡ drop r.startpos a ++ drop r.bufsize r.recv_buffer =
      ap (λ (b : List ℕ). drop r.startpos b) (sym (take-append-drop r.bufsize r.recv_buffer))
      ∙ drop-append r.startpos a (drop r.bufsize r.recv_buffer) (omega (arith, w.start)) in
    ap (λ (b : List ℕ). take (r.bufsize - r.startpos) b) cut
    ∙ take-append (r.bufsize - r.startpos) (drop r.startpos a) (drop r.bufsize r.recv_buffer)
        (omega (arith, length-drop r.startpos a))

-- A longer buffer, with the same window.
pub record Roomier (r r' : MsgReader) : Type 0 where
  pub window : IsWindow r'
  pub unread_same : unread r' ≡ unread r
  pub start_same : r'.startpos ≡ r.startpos
  pub end_same : r'.bufsize ≡ r.bufsize
  pub decoded_same : r'.decoded_msgsize ≡ r.decoded_msgsize

pub reserve-Roomier : (r : MsgReader) → IsWindow r → Roomier r (reserve r)
unfolding reserve
reserve-Roomier r w = elim (Bool-cases (ltb (length r.recv_buffer) (r.bufsize + r.min_reserve))) [
  | inr enough ↦ rw enough (record {
    window = w;
    unread_same = refl;
    start_same = refl;
    end_same = refl;
    decoded_same = refl;
  })
  | inl short ↦
      let pad =
        replicate
          (max (r.bufsize + r.min_reserve) (length r.recv_buffer * 2) - length r.recv_buffer) 0 in
      let longer = record r { recv_buffer = r.recv_buffer ++ pad } in
      let w' : IsWindow longer = record {
        start = w.start;
        inside = omega (arith, length-append r.recv_buffer pad, w.inside);
      } in
      rw short (record {
        window = w';
        unread_same =
            unread-cut longer w'
            ∙ ap (λ (b : List ℕ). drop r.startpos b)
                (take-part r.bufsize r.recv_buffer pad w.inside)
            ∙ sym (unread-cut r w);
        start_same = refl;
        end_same = refl;
        decoded_same = refl;
      })
]

pub fill-IsWindow :
    (r : MsgReader) (bytes : List ℕ)
    → IsWindow r
    → length bytes ≤ length r.recv_buffer - r.bufsize
    → IsWindow (fill r bytes)
      × (unread (fill r bytes) ≡ unread r ++ bytes)
      × ((fill r bytes).startpos ≡ r.startpos)
      × ((fill r bytes).decoded_msgsize ≡ r.decoded_msgsize)
unfolding fill
fill-IsWindow r bytes w room =
    let a = take r.bufsize r.recv_buffer in
    let tail = drop (r.bufsize + length bytes) r.recv_buffer in
    let size_a : length a ≡ r.bufsize =
      omega (arith, length-take r.bufsize r.recv_buffer, w.inside) in
    let size : length (a ++ (bytes ++ tail)) ≡ length r.recv_buffer = omega (
      arith,
      length-append a (bytes ++ tail),
      length-append bytes tail,
      length-drop (r.bufsize + length bytes) r.recv_buffer,
      w.inside,
    ) in
    let front = drop r.startpos a in
    let cut : drop r.startpos (a ++ (bytes ++ tail)) ≡ (front ++ bytes) ++ tail =
      drop-append r.startpos a (bytes ++ tail) (omega (arith, w.start))
      ∙ sym (append_assoc front bytes tail) in
    (
      record { start = omega (arith, w.start); inside = omega (arith, size, w.inside) },
      ap (λ (b : List ℕ). take (r.bufsize + length bytes - r.startpos) b) cut
          ∙ take-append (r.bufsize + length bytes - r.startpos) (front ++ bytes) tail
              (omega (arith, length-append front bytes, length-drop r.startpos a, w.start))
          ∙ ap (λ (b : List ℕ). b ++ bytes) (sym (unread-cut r w)),
      refl,
      refl,
    )
