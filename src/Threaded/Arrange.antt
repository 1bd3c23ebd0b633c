-- ===== src/Threaded/Arrange.antt =====
-- The senders of src/threaded_reactors.rs's threads, which arrive in any order.
use reactio_rs.Base.{
  ℕ, suc, ◌<◌, ◌≡◌, ◌≢◌, refl, sym, ◌∙◌, ap, List, [], ◌∷◌, arith, Build, done, leb, ◌==◌,
  debug_assert-true, true, false,
}
use reactio_rs.Threaded.{insert_sorted, sort, check_ids, assemble}

-- The orders in which entries can arrive: one is made of the other by exchanges of neighbours.
pub data Shuffled {D : Type 0} : List (ℕ × D) → List (ℕ × D) → Type 0 where
  same : {l : List (ℕ × D)} → Shuffled l l
  keep : {l r : List (ℕ × D)} (x : ℕ × D) → Shuffled l r → Shuffled (x ∷ l) (x ∷ r)
  swap : {l r : List (ℕ × D)} (x y : ℕ × D) → Shuffled l r → Shuffled (x ∷ y ∷ l) (y ∷ x ∷ r)
  both : {l m r : List (ℕ × D)} → Shuffled l m → Shuffled m r → Shuffled l r

module _ {D : Type 0} where
  -- No entry has this id.
  abbrev Free : ℕ → List (ℕ × D) → Type 0
  Free i [] = Unit
  Free i ((j, _) ∷ es) = (i ≢ j) × Free i es

  abbrev IdsDiffer : List (ℕ × D) → Type 0
  IdsDiffer [] = Unit
  IdsDiffer ((i, _) ∷ es) = Free i es × IdsDiffer es

  Free-Shuffled : (i : ℕ) {l r : List (ℕ × D)} → Shuffled l r → Free i l → Free i r
  Free-Shuffled i same f = f
  Free-Shuffled i (keep x p) f = (f.0, Free-Shuffled i p f.1)
  Free-Shuffled i (swap x y p) f = (f.1.0, (f.0, Free-Shuffled i p f.1.1))
  Free-Shuffled i (both p q) f = Free-Shuffled i q (Free-Shuffled i p f)

  insert_sorted_comm :
      (x y : ℕ × D) (l : List (ℕ × D))
      → x.0 ≢ y.0
      → insert_sorted x (insert_sorted y l) ≡ insert_sorted y (insert_sorted x l)
  unfolding insert_sorted
  insert_sorted_comm x y [] ne = ground arith
  insert_sorted_comm x y (z ∷ l) ne = ground (arith, insert_sorted_comm x y l ne)

  -- Lists with the same entries, whose ids differ, are sorted to the same list.
  sort-Shuffled :
      {l r : List (ℕ × D)} → Shuffled l r → IdsDiffer l → IdsDiffer r × (sort l ≡ sort r)
  unfolding sort
  sort-Shuffled same d = (d, refl)
  sort-Shuffled (keep x p) (f, d) =
      let (d', e) = sort-Shuffled p d in ((Free-Shuffled x.0 p f, d'), ap (insert_sorted x) e)
  sort-Shuffled (swap x y p) ((ne, f), (g, d)) =
      let (d', e) = sort-Shuffled p d in
      (
        (((λ same_id. ne (sym same_id)), Free-Shuffled y.0 p g), (Free-Shuffled x.0 p f, d')),
        insert_sorted_comm x y _ ne
            ∙ ap (λ (l : List (ℕ × D)). insert_sorted y (insert_sorted x l)) e,
      )
  sort-Shuffled (both p q) d =
      let (d1, e1) = sort-Shuffled p d in let (d2, e2) = sort-Shuffled q d1 in (d2, e1 ∙ e2)

  -- The senders of the threads from number `i` on, in order.
  abbrev pub numbered : ℕ → List D → List (ℕ × D)
  numbered i [] = []
  numbered i (x ∷ xs) = (i, x) ∷ numbered (suc i) xs

  numbered-Free : (i j : ℕ) (xs : List D) → i < j → Free i (numbered j xs)
  numbered-Free i j [] h = tt
  numbered-Free i j (x ∷ xs) h = (omega arith, numbered-Free i (suc j) xs (omega arith))

  numbered-IdsDiffer : (i : ℕ) (xs : List D) → IdsDiffer (numbered i xs)
  numbered-IdsDiffer i [] = tt
  numbered-IdsDiffer i (x ∷ xs) =
      (numbered-Free i (suc i) xs (omega arith), numbered-IdsDiffer (suc i) xs)

  sort-numbered : (i : ℕ) (xs : List D) → sort (numbered i xs) ≡ numbered i xs
  unfolding sort insert_sorted
  sort-numbered i [] = refl
  sort-numbered i (x ∷ []) = refl
  sort-numbered i (x ∷ y ∷ xs) =
      let before : leb i (suc i) ≡ true = ground arith in
      ap (insert_sorted (i, x)) (sort-numbered (suc i) (y ∷ xs)) ∙ rw before refl

  check_ids-numbered :
      (build : Build) (i : ℕ) (xs : List D)
      → check_ids build i (numbered i xs) ≡ done (numbered i xs)
  unfolding check_ids
  check_ids-numbered build i [] = refl
  check_ids-numbered build i (x ∷ xs) =
      let same : (i == i) ≡ true = ground arith in
      rw (same, debug_assert-true build, check_ids-numbered build (suc i) xs) refl

  -- In whatever order the senders of the threads arrive, `new` ends with the sender of each thread at
  -- the thread's number, in either build, not stopped and with no name.
  pub assemble_arranges :
      (build : Build) (xs : List D) (arrived : List (ℕ × D))
      → Shuffled (numbered 0 xs) arrived
      → assemble build arrived
        ≡ done (record { senders = numbered 0 xs; stopcmd = false; reactor_uid_map = [] })
  unfolding assemble
  assemble_arranges build xs arrived p =
      let sorted : sort arrived ≡ numbered 0 xs =
        sym (sort-Shuffled p (numbered-IdsDiffer 0 xs)).1 ∙ sort-numbered 0 xs in
      rw (sorted, check_ids-numbered build 0 xs) refl
