-- ===== src/Manager/Refines.antt =====
-- The manager with its interleaved coroutines implements the pool.
use code_executor_api.Prelude.{
  ℕ, ◌-◌, Text, ◌≡◌, refl, ap, ◌∙◌, inl, inr, Bool, Option, none, some, List, arith, Bool-cases,
  Option-cases, Result-cases, ok, err, ◌==◌,
}
use code_executor_api.Config.{Settings}
use code_executor_api.Manager.{
  Session, lookup, get, create_reserve, recheck, acquire_slot, release_slot, sweep_deletes,
}
use code_executor_api.Manager.Reserve.{create_reserve-Reserves, create_reserve-refused}
use code_executor_api.Manager.Invariant.{sessions-create_abort, sessions-finish_delete}
use code_executor_api.Manager.Frames.{Registered, All-find}
use code_executor_api.Manager.Recheck.{recheck-found}
use code_executor_api.Manager.System.{
  System, Event, start, step, run, reserves, created, create_fails, arrives, gives_up, enters,
  leaves, deletes, sweeps, removes, takes_slot, drops_slot, find, remove, is_free, entered,
  reserved, create_failed, removed, arrived, begun, swept, slot_taken,
}
use code_executor_api.Manager.Safety.{IsSafe, IsOrderly, AreOrderly}
use code_executor_api.Manager.Safety.Runs.{run-start-IsSafe}
use code_executor_api.Manager.Pool.{
  quiet, opening, closing, starting, ending, starts, ends, Implements, IsRefusal, view,
}
use code_executor_api.Manager.Pool.Changes.{unchanged, inserted, popped}

module _ {settings : Settings} {y : System} (v : IsSafe settings y) where
  reserves-Implements :
      (token : Text) (mkdtemp : Option Text) (now : ℕ)
      → lookup token y.sessions ≡ none
      → Implements settings y (reserves token mkdtemp now)
  unfolding step
  reserves-Implements token mkdtemp now new =
      elim (Result-cases (create_reserve settings y.next_ref token mkdtemp now y.manager)) [
        | inr (e, p) ↦
            let refusal : IsRefusal settings y mkdtemp =
              create_reserve-refused settings y.next_ref token mkdtemp now y.manager e p in
            rw p (quiet, refusal, unchanged settings y y refl refl)
        | inl ((s, m), p) ↦
            let (i, r, sl, res) =
              create_reserve-Reserves settings y.next_ref token mkdtemp now y.manager s m p in
            rw p (
              (
                opening s.id,
                i,
                inserted settings y (reserved y (ok (s, m))) s
                    (ap (λ t. lookup t y.sessions) i ∙ new) res.room res.sessions_eq refl,
              ))
      ]

  create_fails-Implements : (r : ℕ) → Implements settings y (create_fails r)
  unfolding step
  create_fails-Implements r = elim (Option-cases (find r y.creating)) [
    | inl e ↦ rw e (quiet, tt, unchanged settings y y refl refl)
    | inr (s, e) ↦
        let found = All-find (Registered y.sessions) r y.creating s v.creating_in e in
        rw e (
          (
            closing s.id,
            refl,
            popped settings y (create_failed y (some s)) s v.inv.keys found
                (sessions-create_abort s v.inv found) refl,
          ))
  ]

  removes-Implements : (r : ℕ) (done : Bool) → Implements settings y (removes r done)
  unfolding step
  removes-Implements r done = elim (Option-cases (find r y.deleting)) [
    | inl e ↦ rw e (quiet, tt, unchanged settings y y refl refl)
    | inr (s, e) ↦
        let found = All-find (Registered y.sessions) r y.deleting s v.deleting_in e in
        rw e (
          (
            closing s.id,
            refl,
            popped settings y (removed y done (some s)) s v.inv.keys found
                (sessions-finish_delete s v.inv found done) refl,
          ))
  ]

  arrives-Implements : (k : Text) → Implements settings y (arrives k)
  unfolding step
  arrives-Implements k = elim (Result-cases (get y.manager k)) [
    | inl (s, e) ↦ rw e (quiet, tt, unchanged settings y (arrived y (ok s)) refl refl)
    | inr (s, e) ↦ rw e (quiet, tt, unchanged settings y y refl refl)
  ]

  enters-Implements : (r now : ℕ) → Implements settings y (enters r now)
  unfolding step
  enters-Implements r now = elim (Option-cases (find r y.waiting)) [
    | inl e ↦ rw e (quiet, tt, unchanged settings y y refl refl)
    | inr (s, e) ↦ rw e (elim (Bool-cases (is_free y s.ref)) [
      | inr f ↦ rw f (quiet, tt, unchanged settings y y refl refl)
      | inl f ↦ rw f (elim (Result-cases (recheck s now y.manager)) [
        | inr (x, p) ↦ rw p (quiet, tt, unchanged settings y (entered y s.ref (err x)) refl refl)
        | inl ((t, m), p) ↦ rw p (
            (
              quiet,
              tt,
              unchanged settings y (entered y s.ref (ok (t, m)))
                  (recheck-found s now y.manager t m p).3.sessions_eq refl,
            ))
      ])
    ])
  ]

  deletes-Implements : (r : ℕ) → Implements settings y (deletes r)
  unfolding step
  deletes-Implements r = elim (Option-cases (find r y.running)) [
    | inl e ↦ rw e (quiet, tt, unchanged settings y y refl refl)
    | inr (s, e) ↦ rw e (quiet, tt, unchanged settings y (begun y (some s)) refl refl)
  ]

  sweeps-Implements : (s : Session) (now : ℕ) → Implements settings y (sweeps s now)
  unfolding step
  sweeps-Implements s now = elim (Bool-cases (is_free y s.ref)) [
    | inr f ↦ rw f (quiet, tt, unchanged settings y y refl refl)
    | inl f ↦ rw f (elim (Option-cases (sweep_deletes settings now s y.manager)) [
      | inl e ↦ rw e (quiet, tt, unchanged settings y y refl refl)
      | inr (t, e) ↦ rw e (quiet, tt, unchanged settings y (swept y (some t)) refl refl)
    ])
  ]

  takes_slot-Implements : Implements settings y takes_slot
  unfolding step acquire_slot get
  takes_slot-Implements = elim (Bool-cases (y.slots == 0)) [
    | inl e ↦ rw e (quiet, ground (arith, v.slots), unchanged settings y y refl refl)
    | inr e ↦ rw e (
        (
          starting,
          tt,
          starts (view y) (view (slot_taken y (ok (record y.manager { slots = y.slots - 1 }))))
              (ground (arith, v.slots))
              (record { live_eq = λ k. refl; size_eq = refl; executing_eq = refl }),
        ))
  ]

  drops_slot-Implements : Implements settings y drops_slot
  unfolding step release_slot get
  drops_slot-Implements = elim (Bool-cases (y.executing == 0)) [
    | inl e ↦ rw e (quiet, ground arith, unchanged settings y y refl refl)
    | inr e ↦ rw e (
        (
          ending,
          tt,
          ends (view y)
              (view (record y { manager = release_slot y.manager; executing = y.executing - 1 }))
              (record { live_eq = λ k. refl; size_eq = refl; executing_eq = ground arith }),
        ))
  ]

  step-Implements : (e : Event) → IsOrderly y e → Implements settings y e
  unfolding step
  step-Implements (reserves token mkdtemp now) o = reserves-Implements token mkdtemp now o
  step-Implements (created r) o =
      (quiet, tt, unchanged settings y (record y { creating = remove r y.creating }) refl refl)
  step-Implements (create_fails r) o = create_fails-Implements r
  step-Implements (arrives k) o = arrives-Implements k
  step-Implements (gives_up r) o =
      (quiet, tt, unchanged settings y (record y { waiting = remove r y.waiting }) refl refl)
  step-Implements (enters r now) o = enters-Implements r now
  step-Implements (leaves r) o =
      (quiet, tt, unchanged settings y (record y { running = remove r y.running }) refl refl)
  step-Implements (deletes r) o = deletes-Implements r
  step-Implements (sweeps s now) o = sweeps-Implements s now
  step-Implements (removes r done) o = removes-Implements r done
  step-Implements takes_slot o = takes_slot-Implements
  step-Implements drops_slot o = drops_slot-Implements

-- The manager implements the pool, event by event. After any orderly events, an orderly event does to the
-- sessions that `get` finds, their number and the number of executions exactly what it may: the start of
-- a creation opens the session of its own id, or it changes nothing and there is no room, no directory or
-- no project id for it; the failure of a
-- creation and the end of a deletion close the session that they are of; a slot starts an execution below
-- the limit, or the limit is reached; its return ends one; and every other event changes nothing.
pub run-Implements :
    (settings : Settings) (es : List Event) (e : Event)
    → AreOrderly settings (start settings) es
    → IsOrderly (run settings (start settings) es) e
    → Implements settings (run settings (start settings) es) e
run-Implements settings es e o p = step-Implements (run-start-IsSafe settings es o) e p
