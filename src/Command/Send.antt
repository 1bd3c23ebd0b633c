-- ===== src/Command/Send.antt =====
-- `CmdSender` of src/reactor.rs: what each call puts on the channel, and what it refuses.
use reactio_rs.Base.{
  ◌≡◌, ◌≢◌, refl, List, [], ◌∷◌, ◌++◌, true, false, Result, ok, err, Bool-cases, inl, inr, ◌⊎◌,
}
use reactio_rs.ReactorId.{ReactorId, invalid_reactor_id, same_id}
use reactio_rs.ReactorId.Laws.{same_id_iff}
use reactio_rs.Command.{
  CmdError, needs_invalid_id, needs_valid_id, disconnected, Deferred, SysCommand, new_connect,
  new_listen, close_socket, user_cmd, CmdData, Channel, send, check_target, send_cmd,
}

same_id-cases :
    (id : ReactorId)
    → ((id ≡ invalid_reactor_id) × (same_id id invalid_reactor_id ≡ true))
      ⊎ ((id ≢ invalid_reactor_id) × (same_id id invalid_reactor_id ≡ false))
same_id-cases id = elim (Bool-cases (same_id id invalid_reactor_id)) [
  | inl e ↦ inl ((same_id_iff id invalid_reactor_id).0 e, e)
  | inr e ↦ inr ((λ same. cc (e, (same_id_iff id invalid_reactor_id).1 same)), e)
]

-- The ids that a command may have, and the error for each other id.
module _ {R H U : Type 0} where
  abbrev pub Fits : ReactorId → SysCommand R H U → Type 0
  Fits id (new_connect _ _ _) = id ≡ invalid_reactor_id
  Fits id (new_listen _ _) = id ≡ invalid_reactor_id
  Fits id close_socket = Unit
  Fits id (user_cmd _) = id ≢ invalid_reactor_id

  abbrev pub Misfits : ReactorId → SysCommand R H U → CmdError → Type 0
  Misfits id (new_connect _ _ _) e = (id ≢ invalid_reactor_id) × (e ≡ needs_invalid_id)
  Misfits id (new_listen _ _) e = (id ≢ invalid_reactor_id) × (e ≡ needs_invalid_id)
  Misfits id close_socket e = ⊥
  Misfits id (user_cmd _) e = (id ≡ invalid_reactor_id) × (e ≡ needs_valid_id)

  check_target-cases :
      (id : ReactorId) (cmd : SysCommand R H U)
      → (Fits id cmd × (check_target id cmd ≡ ok tt))
        ⊎ ((e : CmdError) × Misfits id cmd e × (check_target id cmd ≡ err e))
  unfolding check_target
  check_target-cases id (new_connect _ _ _) = elim (same_id-cases id) [
    | inl (invalid, e) ↦ rw e (inl (invalid, refl))
    | inr (valid, e) ↦ rw e (inr (needs_invalid_id, (valid, refl), refl))
  ]
  check_target-cases id (new_listen _ _) = elim (same_id-cases id) [
    | inl (invalid, e) ↦ rw e (inl (invalid, refl))
    | inr (valid, e) ↦ rw e (inr (needs_invalid_id, (valid, refl), refl))
  ]
  check_target-cases id close_socket = inl (tt, refl)
  check_target-cases id (user_cmd _) = elim (same_id-cases id) [
    | inl (invalid, e) ↦ rw e (inr (needs_valid_id, (invalid, refl), refl))
    | inr (valid, e) ↦ rw e (inl (valid, refl))
  ]

  Fits-Targeted :
      (id : ReactorId) (cmd : SysCommand R H U) → Fits id cmd → check_target id cmd ≡ ok tt
  Fits-Targeted id cmd fits = elim (check_target-cases id cmd) [
    | inl (_, e) ↦ e
    | inr (e, misfits, _) ↦ absurd (apart cmd e fits misfits)
  ]
    where
      apart : (cmd : SysCommand R H U) (e : CmdError) → Fits id cmd → Misfits id cmd e → ⊥
      apart (new_connect _ _ _) e fits m = m.0 fits
      apart (new_listen _ _) e fits m = m.0 fits
      apart close_socket e fits m = m
      apart (user_cmd _) e fits m = fits m.0

module _ {R H U K : Type 0} where
  -- The commands that the runtime can execute without the panic on an invalid id, and with no id
  -- that it would not use.
  abbrev pub IsTargeted : CmdData R H U K → Type 0
  IsTargeted c = check_target c.reactorid c.cmd ≡ ok tt

  abbrev pub AllTargeted : List (CmdData R H U K) → Type 0
  AllTargeted [] = Unit
  AllTargeted (c ∷ cs) = IsTargeted c × AllTargeted cs

  AllTargeted-append :
      (cs : List (CmdData R H U K)) (c : CmdData R H U K)
      → AllTargeted cs
      → IsTargeted c
      → AllTargeted (cs ++ c ∷ [])
  AllTargeted-append [] c h t = (t, tt)
  AllTargeted-append (x ∷ cs) c h t = (h.0, AllTargeted-append cs c h.1 t)
      -- What a call to send leaves: over an open channel, the command at the end of the queue, if its id

  -- fits; an error and no change, if the id does not fit or the channel is closed.
  abbrev pub SendResult :
      Channel R H U K → CmdData R H U K → Result CmdError (Unit {0}) × Channel R H U K → Type 0
  SendResult ch c r =
      (Fits c.reactorid c.cmd
        × (ch.connected ≡ true)
        × (r.0 ≡ ok tt)
        × (r.1 ≡ record ch { queue = ch.queue ++ c ∷ [] }))
      ⊎ ((Fits c.reactorid c.cmd × (ch.connected ≡ false) × (r.0 ≡ err disconnected) × (r.1 ≡ ch))
          ⊎ ((e : CmdError) × Misfits c.reactorid c.cmd e × (r.0 ≡ err e) × (r.1 ≡ ch)))

  -- `send_cmd` over an open channel appends exactly its command to the queue, if the id fits: connecting
  -- and listening are for the invalid id, a user command is for another, and closing is for any. If
  -- not, it reports which id is needed, and over a closed channel that it is closed; the channel is
  -- then as it was.
  pub send_cmd_result :
      (ch : Channel R H U K) (id : ReactorId) (cmd : SysCommand R H U) (d : Deferred) (k : K)
      → SendResult ch
          (record { reactorid = id; cmd = cmd; deferred = d; completion = k })
          (send_cmd ch id cmd d k)
  unfolding send_cmd
  send_cmd_result ch id cmd d k = elim (check_target-cases id cmd) [
    | inr (e, misfits, refused) ↦ rw (refused, send_cmd) (inr (inr (e, misfits, refl, refl)))
    | inl (fits, passed) ↦
        rw (passed, send_cmd)
          (elim (Bool-cases ch.connected) [
            | inl open_end ↦ rw (open_end, send) (inl (fits, refl, refl, refl))
            | inr closed ↦ rw (closed, send) (inr (inl (fits, refl, refl, refl)))
          ])
  ]

  -- If all commands in the queue fit their ids, they still do after any call of `send_cmd`.
  pub send_cmd-AllTargeted :
      (ch : Channel R H U K) (id : ReactorId) (cmd : SysCommand R H U) (d : Deferred) (k : K)
      → AllTargeted ch.queue
      → AllTargeted (send_cmd ch id cmd d k).1.queue
  send_cmd-AllTargeted ch id cmd d k h = elim (send_cmd_result ch id cmd d k) [
    | inl (fits, _, _, queue) ↦
        rw queue (AllTargeted-append ch.queue _ h (Fits-Targeted id cmd fits))
    | inr (inl (_, _, _, same)) ↦ rw same h
    | inr (inr (e, _, _, same)) ↦ rw same h
  ]
