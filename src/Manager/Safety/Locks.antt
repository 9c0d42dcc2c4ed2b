-- ===== src/Manager/Safety/Locks.antt =====
-- Taking a session's lock, in `locked` and in the sweep, keeps the invariant.
use code_executor_api.Prelude.{
  ℕ, ◌+◌, ◌≤◌, Text, ◌≡◌, inl, inr, true, some, List, ◌∷◌, arith, Bool-cases, Option-cases,
  Result-cases, ◌==◌, if◌then◌else◌,
}
use code_executor_api.Config.{Settings}
use code_executor_api.Manager.{Session, Manager, lookup, recheck, sweep_deletes}
use code_executor_api.Manager.Registry.{count_refs, count_refs-lookup}
use code_executor_api.Manager.Invariant.{same-Inv}
use code_executor_api.Manager.Frames.{same-Registered, lookup-Registered, ref-find}
use code_executor_api.Manager.Recheck.{Touches, recheck-found, sweep_deletes-found}
use code_executor_api.Manager.System.{System, step, enters, sweeps, find, remove, is_free}
use code_executor_api.Manager.Safety.{owners, IsSafe}
use code_executor_api.Manager.Safety.Waits.{waiting-IsSafe}

module _ {settings : Settings} {y : System} (v : IsSafe settings y) where
  -- A session that is registered and has no owner may be given one.
  module _ (f : Session) (k : Text) (found : lookup k y.sessions ≡ some f)
      (alone : owners f.ref y ≡ 0) where
    exclusive-owned : (q : ℕ) → (if f.ref == q then 1 else 0) + owners q y ≤ 1
    exclusive-owned q = ground (arith, v.exclusive q, alone)

    unused-owned :
        (q : ℕ)
        → y.next_ref ≤ q
        → (if f.ref == q then 1 else 0) + owners q y + count_refs q y.sessions ≡ 0
    unused-owned q h = ground (arith, v.unused q h, count_refs-lookup k y.sessions f found)

    running-IsSafe :
        (m : Manager) (frames : List Session)
        → Touches y.manager m
        → IsSafe settings (record y { manager = m; waiting = frames; running = f ∷ y.running })
    unfolding count_refs
    running-IsSafe m frames same = record {
      inv = same-Inv y.manager m same.sessions_eq same.next_eq same.free_eq v.inv;
      slots = omega (arith, v.slots, same.slots_eq);
      creating_in = same-Registered y.creating same.sessions_eq v.creating_in;
      running_in =
          same-Registered (f ∷ y.running) same.sessions_eq
            (lookup-Registered k y.sessions f found, v.running_in);
      deleting_in = same-Registered y.deleting same.sessions_eq v.deleting_in;
      exclusive = λ q. omega (arith, exclusive-owned q);
      unused = λ q h. rw same.sessions_eq (omega (arith, unused-owned q h));
    }

    swept-IsSafe : IsSafe settings (record y { deleting = f ∷ y.deleting })
    unfolding count_refs
    swept-IsSafe = record {
      inv = v.inv;
      slots = v.slots;
      creating_in = v.creating_in;
      running_in = v.running_in;
      deleting_in = (lookup-Registered k y.sessions f found, v.deleting_in);
      exclusive = λ q. omega (arith, exclusive-owned q);
      unused = λ q h. omega (arith, unused-owned q h);
    }

  owners-free : (r : ℕ) → count_refs r y.creating ≡ 0 → is_free y r ≡ true → owners r y ≡ 0
  unfolding is_free
  owners-free r idle free = ground arith

  pub enters-IsSafe :
      (r now : ℕ) → count_refs r y.creating ≡ 0 → IsSafe settings (step settings y (enters r now))
  unfolding step
  enters-IsSafe r now idle = elim (Option-cases (find r y.waiting)) [
    | inl e ↦ rw e v
    | inr (s, e) ↦ elim (Bool-cases (is_free y s.ref)) [
      | inl free ↦ elim (Result-cases (recheck s now y.manager)) [
        | inl ((f, m), p) ↦
            let (found, same, _, touches) = recheck-found s now y.manager f m p in
            let alone : owners f.ref y ≡ 0 =
              rw (same) (owners-free s.ref (rw (ref-find r y.waiting s e) idle) free) in
            rw (e, free, p) (running-IsSafe f s.id found alone m (remove s.ref y.waiting) touches)
        | inr (f, p) ↦ rw (e, free, p) (waiting-IsSafe v (remove s.ref y.waiting))
      ]
      | inr busy ↦ rw (e, busy) v
    ]
  ]

  pub sweeps-IsSafe :
      (s : Session) (now : ℕ)
      → count_refs s.ref y.creating ≡ 0
      → IsSafe settings (step settings y (sweeps s now))
  unfolding step
  sweeps-IsSafe s now idle = elim (Bool-cases (is_free y s.ref)) [
    | inl free ↦ elim (Option-cases (sweep_deletes settings now s y.manager)) [
      | inl p ↦ rw (free, p) v
      | inr (f, p) ↦
          let (found, same, _) = sweep_deletes-found settings now s y.manager f p in
          rw (free, p) (swept-IsSafe f s.id found (rw same (owners-free s.ref idle free)))
    ]
    | inr busy ↦ rw busy v
  ]
