-- ===== src/Runtime/Queue.antt =====
-- `process_command_queue` of src/reactor.rs's `ReactRuntime`, for commands that are not deferred.
use reactio_rs.Base.{
  ℕ, zero, suc, ◌+◌, ◌≤◌, ◌≡◌, refl, subst, arith, List, [], ◌∷◌, false, release, Returns, inl, inr,
  ◌⊎◌, List-cases,
}
use reactio_rs.ReactorId.{half_usize, invalid_reactor_id, same_id}
use reactio_rs.Command.{
  SysCommand, new_connect, new_listen, close_socket, user_cmd, CmdData, Channel, immediate,
}
use reactio_rs.Manager.{World, ReactorMgr}
use reactio_rs.Manager.Invariant.{IsAgreeable, Within}
use reactio_rs.Runtime.{ReactRuntime, execute, dispatch_cmd, command_loop, process_command_queue}
use reactio_rs.Runtime.Executes.{IsAllowed, execute_immediate_cmd-Within}

module _ {R H U K : Type 0} where
  -- A command as `send_cmd` accepts it, for execution at once.
  abbrev pub IsReady : CmdData R H U K → Type 0
  IsReady c =
      (c.deferred ≡ immediate)
      × ((cmd : U) → c.cmd ≡ user_cmd cmd → same_id c.reactorid invalid_reactor_id ≡ false)

  abbrev pub AllReady : List (CmdData R H U K) → Type 0
  AllReady [] = Unit
  AllReady (c ∷ cs) = IsReady c × AllReady cs

  abbrev pub ReadyChannel : Channel R H U K → Type 0
  ReadyChannel ch = AllReady ch.queue

module _ {S L E C R H U K : Type 0} (world : World S L E C R H U K)
    (agreeable : IsAgreeable ReadyChannel world) where
  ready-IsAllowed :
      (mgr : ReactorMgr S L E C R H U K) (c : CmdData R H U K)
      → IsReady c
      → IsAllowed world release ReadyChannel agreeable mgr c
  ready-IsAllowed mgr c ready = go c.cmd refl
    where
      go :
          (cmd : SysCommand R H U)
          → c.cmd ≡ cmd
          → IsAllowed world release ReadyChannel agreeable mgr c
      go (new_connect reactor addr size) e = rw e tt
      go (new_listen handler addr) e = rw e tt
      go close_socket e = rw e (λ h found. refl)
      go (user_cmd cmd) e = rw e (ready.1 cmd e)

  dispatch_at_once :
      (rt : ReactRuntime S L E C R H U K) (c : CmdData R H U K)
      → c.deferred ≡ immediate
      → dispatch_cmd world release rt c ≡ execute world release rt c
  unfolding dispatch_cmd
  dispatch_at_once rt c e = rw e refl

  -- What `rounds` rounds leave of a runtime that has counted `before` commands.
  pub record Processed (n rounds before : ℕ) (a : ℕ × ReactRuntime S L E C R H U K) : Type 0 where
    pub within : Within ReadyChannel (n + rounds) (a.1).mgr
    pub at_least : before ≤ a.0
    pub at_most : a.0 ≤ before + rounds
    pub drained : (a.0 ≡ before + rounds) ⊎ ((a.1).mgr.channel.queue ≡ [])

  command_loop-Processed :
      (rounds n before : ℕ) (rt : ReactRuntime S L E C R H U K)
      → n + rounds ≤ half_usize
      → Within ReadyChannel n rt.mgr
      → Returns (Processed n rounds before) (command_loop world release rounds rt before)
  unfolding command_loop execute
  command_loop-Processed zero n before rt room (m, fits, ready) = (
    _,
    refl,
    record {
      within = (m, omega arith, ready);
      at_least = omega arith;
      at_most = omega arith;
      drained = inl (omega arith);
    },
  )
  command_loop-Processed (suc rounds) n before rt room (m, fits, ready) =
      elim (List-cases rt.mgr.channel.queue) [
        | inl empty ↦ rw empty (
          _,
          refl,
          record {
            within = (m, omega arith, tt);
            at_least = omega arith;
            at_most = omega arith;
            drained = inr refl;
          },
        )
        | inr (c, rest, e) ↦
            let (first, later) = subst AllReady e ready in
            let mgr = record (rt.mgr) { channel = record (rt.mgr.channel) { queue = rest } } in
            let (mgr', ran, within) =
              execute_immediate_cmd-Within world release ReadyChannel agreeable n (omega arith) mgr
                c (m, fits, later) (ready-IsAllowed mgr c first) in
            let (a, e', after) =
              command_loop-Processed rounds (n + 1) (before + 1) (record rt { mgr = mgr' })
                (omega arith) within in
            let slots : n + 1 + rounds ≡ n + suc rounds = omega arith in
            rw (e, command_loop, dispatch_at_once (record rt { mgr = mgr }) c first.0, ran, e')
              (
                a,
                refl,
                record {
                  within = rw slots at after.within;
                  at_least = omega (arith, after.at_least);
                  at_most = omega (arith, after.at_most);
                  drained = elim after.drained [
                    | inl all ↦ inl (omega (arith, all))
                    | inr none_left ↦ inr none_left
                  ];
                },
              )
      ]

  -- In a release build, with a poller that accepts and lets go of every socket, with fewer than
  -- 2^32 slots also after `max_commands` more, with reactors whose `on_command` returns (the
  -- default one panics), and where the user code only sends commands for execution at once that
  -- `send_cmd` accepts, `process_command_queue` on such commands ends without a panic. It keeps
  -- the invariant of the sockets, executes at most `max_commands` commands, and stops before
  -- that only when the queue is empty.
  pub process_command_queue-Processed :
      (max_commands n : ℕ) (rt : ReactRuntime S L E C R H U K)
      → n + max_commands ≤ half_usize
      → Within ReadyChannel n rt.mgr
      → Returns (Processed n max_commands 0) (process_command_queue world release rt max_commands)
  unfolding process_command_queue
  process_command_queue-Processed max_commands n rt room within =
      command_loop-Processed max_commands n 0 rt room within
