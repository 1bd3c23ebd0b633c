-- ===== src/ThreadedPingpong/Names.antt =====
-- examples/example/threaded_pingpong.rs: the name of a reactor, from its connection to its end.
use Prim.Native.String.{String}
use text.Mathlib.Text.{◌==◌ as ◌===◌}
use text.Mathlib.TextEquality.{eq_iff}
use reactio_rs.Base.{
  ◌≡◌, refl, ◌∙◌, ap, Bool-cases, inl, inr, none, some, Option, Bool, true, false, arith, err,
  Returns, if◌then◌else◌, Result-cases,
}
use reactio_rs.Base.Int.{ℤ}
use reactio_rs.ReactorId.{ReactorId}
use reactio_rs.Manager.{Context}
use reactio_rs.Threaded.{ReactorUid, duplicate_name, NameError, find_reactor_uid, add_reactor_uid}
use reactio_rs.Threaded.Names.{IsMap, add_reactor_uid_lem, remove_reactor_name_lem}
use reactio_rs.ThreadedPingpong.{
  ThreadedPingpongReactor, Shared, naming, Called, fetch_next, drop_reactor, on_connected,
}

-- A choice that only differs where the first alternative is.
free_or_same :
    (x y : Option ReactorUid) (b : Bool) (value : ReactorUid)
    → x ≡ (if b then some value else y)
    → (if b then none else x) ≡ (if b then none else y)
free_or_same x y true value e = refl
free_or_same x y false value e = e

module _ {S C R H K : Type 0} where
  -- What a reactor's name stands for.
  abbrev pub uid_of : ThreadedPingpongReactor → Context S C R H String K → ReactorUid
  uid_of r ctx = record { runtimeid = r.runtimeid; reactorid = ctx.reactorid }

module _ {S C R H K : Type 0} (ignored : K) (start_time : Option ℤ) (r : ThreadedPingpongReactor)
    (ctx : Context S C R H String K) (shared : Shared R H K) (listener : ReactorId) where
  -- What `on_connected` leaves of what is shared, whatever becomes of its command.
  pub record Registers (c : Called S C R H K) : Type 0 where
    pub reactormgr :
        (c.shared).reactormgr ≡ (add_reactor_uid shared.reactormgr r.inner.name (uid_of r ctx)).1
    pub stopcounter : (c.shared).stopcounter ≡ shared.stopcounter
    pub channels : (c.shared).channels ≡ shared.channels
    pub refused :
        (e : NameError)
        → (add_reactor_uid shared.reactormgr r.inner.name (uid_of r ctx)).0 ≡ err e
        → c.result ≡ err (naming e)
    pub same_name : (c.reactor).inner.name ≡ r.inner.name

  pub on_connected-Registers :
      (time : ℤ)
      → start_time ≡ some time
      → Returns Registers (on_connected ignored start_time r ctx shared listener)
  unfolding on_connected
  on_connected-Registers time e =
      elim (Result-cases (add_reactor_uid shared.reactormgr r.inner.name (uid_of r ctx)).0) [
        | inr (failure, e1) ↦
            rw (e1, on_connected)
              (
                _,
                refl,
                record {
                  reactormgr = refl;
                  stopcounter = refl;
                  channels = refl;
                  refused = λ f e2. cc (e1, e2);
                  same_name = refl;
                },
              )
        | inl (_, e1) ↦ elim (Bool-cases r.inner.is_client) [
          | inl client ↦
              rw (e1, on_connected, client, e)
                (
                  _,
                  refl,
                  record {
                    reactormgr = refl;
                    stopcounter = refl;
                    channels = refl;
                    refused = λ f e2. cc (e1, e2);
                    same_name = refl;
                  },
                )
          | inr server ↦
              rw (e1, on_connected, server)
                (
                  _,
                  refl,
                  record {
                    reactormgr = refl;
                    stopcounter = refl;
                    channels = refl;
                    refused = λ f e2. cc (e1, e2);
                    same_name = refl;
                  },
                )
        ]
      ]

  pub Registers-found :
      {c : Called S C R H K}
      → Registers c
      → IsMap shared.reactormgr.reactor_uid_map
      → find_reactor_uid (c.shared).reactormgr r.inner.name ≡ some (uid_of r ctx)
  Registers-found left h =
      let name = r.inner.name in
      let (_, found, _) = add_reactor_uid_lem shared.reactormgr name (uid_of r ctx) h in
      ground (arith, eq_iff name name, found name, left.reactormgr)

  -- With a start time that can be counted and with no name in the map twice, `on_connected` ends, and
  -- its reactor's name stands for its id. When the reactor is dropped, that name stands for nothing,
  -- every other name stands for what it stood for before the connection, and one more reactor is
  -- counted as stopped. A name that was taken by another reactor is refused with an error, but is lost
  -- to that reactor all the same.
  pub on_connected-drop_reactor :
      (time : ℤ)
      → start_time ≡ some time
      → IsMap shared.reactormgr.reactor_uid_map
      → Returns
          (λ c.
            (find_reactor_uid (c.shared).reactormgr r.inner.name ≡ some (uid_of r ctx))
            × ((name : String)
                → find_reactor_uid (drop_reactor c.reactor c.shared).reactormgr name ≡ (
                    if r.inner.name === name
                    then none
                    else find_reactor_uid shared.reactormgr name))
            × ((drop_reactor c.reactor c.shared).stopcounter ≡ fetch_next shared.stopcounter)
            × ((other : ReactorUid)
                → find_reactor_uid shared.reactormgr r.inner.name ≡ some other
                → c.result ≡ err (naming duplicate_name)))
          (on_connected ignored start_time r ctx shared listener)
  unfolding drop_reactor
  on_connected-drop_reactor time e h =
      let (c, e1, left) = on_connected-Registers time e in
      let name = r.inner.name in
      let added = (add_reactor_uid shared.reactormgr name (uid_of r ctx)).1 in
      let (answered, found, map) = add_reactor_uid_lem shared.reactormgr name (uid_of r ctx) h in
      (
        c,
        e1,
        (
          Registers-found left h,
          λ other.
              rw (left.same_name, left.reactormgr)
                ((remove_reactor_name_lem added name map).1 other
                  ∙ free_or_same _ _ (name === other) _ (found other)),
          ap fetch_next left.stopcounter,
          λ other taken. left.refused duplicate_name (elim answered [
            | inl (accepted, free, more) ↦ cc (free, taken)
            | inr (old, refused, before, count) ↦ refused
          ]),
        ),
      )
