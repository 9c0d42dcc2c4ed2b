-- ===== src/Manager/Safety/Waits.antt =====
-- Waiting for a lock, ending a body and taking a slot keep the invariant.
use code_executor_api.Prelude.{
  ℕ, ◌+◌, Text, ◌≡◌, refl, inl, inr, List, ◌∷◌, arith, Bool-cases, Result-cases, ◌==◌,
}
use code_executor_api.Config.{Settings}
use code_executor_api.Manager.{Session, get, acquire_slot, release_slot}
use code_executor_api.Manager.Invariant.{same-Inv}
use code_executor_api.Manager.Frames.{Registered, count_refs-remove_le, All-remove}
use code_executor_api.Manager.System.{
  System, step, arrives, gives_up, leaves, takes_slot, drops_slot, remove,
}
use code_executor_api.Manager.Safety.{IsSafe}

module _ {settings : Settings} {y : System} (v : IsSafe settings y) where
  pub waiting-IsSafe : (frames : List Session) → IsSafe settings (record y { waiting = frames })
  waiting-IsSafe frames = record {
    inv = v.inv;
    slots = v.slots;
    creating_in = v.creating_in;
    running_in = v.running_in;
    deleting_in = v.deleting_in;
    exclusive = v.exclusive;
    unused = v.unused;
  }

  pub slots-IsSafe :
      (slots executing : ℕ)
      → slots + executing ≡ settings.max_concurrent_executions
      → IsSafe settings
          (record y { manager = record y.manager { slots = slots }; executing = executing })
  slots-IsSafe slots executing e = record {
    inv = same-Inv y.manager _ refl refl refl v.inv;
    slots = e;
    creating_in = v.creating_in;
    running_in = v.running_in;
    deleting_in = v.deleting_in;
    exclusive = v.exclusive;
    unused = v.unused;
  }

  pub arrives-IsSafe : (k : Text) → IsSafe settings (step settings y (arrives k))
  unfolding step
  arrives-IsSafe k = elim (Result-cases (get y.manager k)) [
    | inl (s, e) ↦ rw e (waiting-IsSafe (s ∷ y.waiting))
    | inr (f, e) ↦ rw e v
  ]

  pub gives_up-IsSafe : (r : ℕ) → IsSafe settings (step settings y (gives_up r))
  unfolding step
  gives_up-IsSafe r = waiting-IsSafe (remove r y.waiting)

  pub leaves-IsSafe : (r : ℕ) → IsSafe settings (step settings y (leaves r))
  unfolding step
  leaves-IsSafe r = record {
    inv = v.inv;
    slots = v.slots;
    creating_in = v.creating_in;
    running_in = All-remove (Registered y.sessions) r y.running v.running_in;
    deleting_in = v.deleting_in;
    exclusive = λ q. omega (arith, v.exclusive q, count_refs-remove_le q r y.running);
    unused = λ q h. omega (arith, v.unused q h, count_refs-remove_le q r y.running);
  }

  pub takes_slot-IsSafe : IsSafe settings (step settings y takes_slot)
  unfolding step acquire_slot
  takes_slot-IsSafe = elim (Bool-cases (y.slots == 0)) [
    | inl e ↦ rw (e, acquire_slot) v
    | inr e ↦ rw (e, acquire_slot) (slots-IsSafe _ _ (ground arith))
  ]

  pub drops_slot-IsSafe : IsSafe settings (step settings y drops_slot)
  unfolding step release_slot
  drops_slot-IsSafe = elim (Bool-cases (y.executing == 0)) [
    | inl e ↦ rw e v
    | inr e ↦ rw e (slots-IsSafe _ _ (ground arith))
  ]
