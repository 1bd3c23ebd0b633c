-- ===== src/MsgReader/Awaits.antt =====
-- What the bytes that src/reactor.rs's `MsgReader` keeps have to do with the dispatcher's answers.
use reactio_rs.Base.{
  ℕ, ◌<◌, ◌≡◌, refl, sym, ◌∙◌, ap, ◌⊎◌, inl, inr, List, [], ◌++◌, arith, Result, ok, err, length,
  length-append,
}
use mathlib.Core.List.{append-nil, append_assoc}
use reactio_rs.MsgReader.{expect_msg_size, ReadError, Dispatcher}

module _ {X : Type 0} (dispatcher : Dispatcher X) where
  -- A call of the dispatcher that answered the size `decoded`, and left `bytes` without its end
  -- `more`, which arrived later. Of a message whose size is unknown, no byte arrived later.
  pub record Asked (bytes : List ℕ) (decoded : ℕ) : Type 0 where
    pub context : X
    pub given : List ℕ
    pub new_bytes : ℕ
    pub expected : ℕ
    pub more : List ℕ
    pub answered :
        (dispatcher context given new_bytes expected).answer ≡ ok (expect_msg_size decoded)
    pub kept : (dispatcher context given new_bytes expected).slice ++ more ≡ bytes
    pub none_since : (0 < decoded) ⊎ (length more ≡ 0)

  -- Nothing is kept, or what the dispatcher was asked about.
  abbrev pub Awaits : List ℕ → ℕ → Type 0
  Awaits bytes decoded = ((length bytes ≡ 0) × (decoded ≡ 0)) ⊎ Asked bytes decoded

  -- The end of a loop that began with `bytes0`, `decoded0` and `x0`. It called the dispatcher and
  -- returns what the last call answered and left, or it dropped all bytes, or it began with no whole
  -- message and did nothing.
  abbrev pub Ended : List ℕ → ℕ → X → Result ReadError (Unit {0}) → List ℕ → ℕ → X → Type 0
  Ended bytes0 decoded0 x0 (err e) rest decoded x =
      (length rest ≡ 0)
      × (decoded ≡ 0)
      × ((y : X) × (given : List ℕ) × (n : ℕ) × (d : ℕ) × ((dispatcher y given n d).answer ≡ err e)
          × ((dispatcher y given n d).context ≡ x))
  Ended bytes0 decoded0 x0 (ok _) rest decoded x =
      ((length rest ≡ 0) × (decoded ≡ 0))
      ⊎ (((y : X) × (given : List ℕ) × (n : ℕ) × (d : ℕ) × ((dispatcher y given n d).answer
              ≡ ok (expect_msg_size decoded))
            × ((dispatcher y given n d).slice ≡ rest)
            × ((dispatcher y given n d).context ≡ x))
          ⊎ ((rest ≡ bytes0)
              × (decoded ≡ decoded0)
              × (x ≡ x0)
              × ((length bytes0 ≡ 0) ⊎ (length bytes0 < decoded0))))

  -- A loop over the bytes that wait, and others behind them, leaves bytes that wait.
  pub Ended-Awaits :
      (old bytes bytes0 : List ℕ) (decoded0 : ℕ) (x0 : X) (res : Result ReadError (Unit {0}))
      (rest : List ℕ) (decoded : ℕ) (x : X)
      → Awaits old decoded0
      → bytes0 ≡ old ++ bytes
      → Ended bytes0 decoded0 x0 res rest decoded x
      → Awaits rest decoded
  Ended-Awaits old bytes bytes0 decoded0 x0 (err e) rest decoded x h b (none, zero, _) =
      inl (none, zero)
  Ended-Awaits old bytes bytes0 decoded0 x0 (ok _) rest decoded x h b (inl nothing) = inl nothing
  Ended-Awaits old bytes bytes0 decoded0 x0 (ok _) rest decoded x h b
        (inr (inl (y, given, n, d, a, s, _))) =
      inr (record {
        context = y;
        given = given;
        new_bytes = n;
        expected = d;
        more = [];
        answered = a;
        kept = append-nil _ ∙ s;
        none_since = inr refl;
      })
  Ended-Awaits old bytes bytes0 decoded0 x0 (ok _) rest decoded x (inl (none, zero)) b
        (inr (inr (same, size, _, few))) =
      inl (ground (arith, ap length same, ap length b, length-append old bytes), size ∙ zero)
  Ended-Awaits old bytes bytes0 decoded0 x0 (ok _) rest decoded x (inr a) b
        (inr (inr (same, size, _, few))) =
      inr (record {
        context = a.context;
        given = a.given;
        new_bytes = a.new_bytes;
        expected = a.expected;
        more = a.more ++ bytes;
        answered = rw size a.answered;
        kept =
            rw (same, b)
              (sym (append_assoc _ a.more bytes) ∙ ap (λ (l : List ℕ). l ++ bytes) a.kept);
        none_since = ground (
          arith,
          ap length b,
          length-append old bytes,
          length-append a.more bytes,
          a.none_since,
          few,
          size,
        );
      })
