-- ===== src/Manager/Sweeper/Rounds.antt =====
-- A round of the sweep's task that no other coroutine interrupts.
use code_executor_api.Prelude.{
  ℕ, ◌≡◌, refl, sym, subst, ap, ◌∙◌, ◌==◌, Bool, true, false, Bool-cases, Option-cases, inl, inr,
  none, some, List, [], ◌∷◌, arith, if◌then◌else◌, not, filter,
}
use code_executor_api.Config.{Settings}
use code_executor_api.FileSystem.Growth.{==_refl}
use code_executor_api.Manager.{Session, Manager, sweep_deletes, finish_delete}
use code_executor_api.Manager.Registry.{count_refs, Unique}
use code_executor_api.Manager.Recheck.{sweep_deletes-found}
use code_executor_api.Manager.System.{System, step, find, remove, is_free, removes}
use code_executor_api.Manager.Expiry.{sweep_once, firsts, swept_one, is_expired, sweep_once-filter}
use code_executor_api.Manager.Sweeper.{
  Sweeper, asleep, trying, awaiting, Task, TaskEvent, others, wakes, tries, resumes, next, try_next,
  try_acquire_lock, resume, task_step, run_task,
}

-- The deletion that the task awaits is over, its directory removed or not, and the task goes on.
abbrev pub settled : Bool → Sweeper → List TaskEvent
settled removed (awaiting now s rest c) = others (removes s.ref removed) ∷ resumes ∷ []
settled removed _ = []

-- Each session of the snapshot in turn.
unfoldable pub round : Settings → List (Session × Bool) → Task → Task
unfolding task_step run_task
round settings [] t = t
round settings ((s, removed) ∷ rest) t =
    let tried = task_step settings t (tries true) in
    round settings rest (run_task settings tried (settled removed tried.sweeper))

find-absent : (r : ℕ) (l : List Session) → count_refs r l ≡ 0 → find r l ≡ none
unfolding find count_refs
find-absent r [] h = refl
find-absent r (s ∷ l) h = elim (Bool-cases (s.ref == r)) [
  | inl t ↦ absurd (let p = rw t at h in ground arith)
  | inr t ↦ rw t (find-absent r l (let p = rw t at h in omega (arith, p)))
]

abbrev with_manager : System → Manager → System
with_manager y m = record y { manager = m }

find-first : (u : Session) (l : List Session) → find u.ref (u ∷ l) ≡ some u
unfolding find
find-first u l = rw (==_refl u.ref) refl

remove-first : (u : Session) (l : List Session) → remove u.ref (u ∷ l) ≡ l
unfolding remove
remove-first u l = rw (==_refl u.ref) refl

idle-deleting : (y : System) (r : ℕ) → is_free y r ≡ true → count_refs r y.deleting ≡ 0
unfolding is_free
idle-deleting y r h = ground arith

-- A deletion that the task has begun, and that is over at once.
deleted :
    (settings : Settings) (y : System) (now : ℕ) (u : Session) (rest : List Session)
    (removed : Bool)
    → find u.ref y.deleting ≡ none
    → run_task settings
        (record {
          system = record y { deleting = u ∷ y.deleting };
          sweeper = awaiting now u rest false;
        })
        (settled removed (awaiting now u rest false))
      ≡ record {
        system = with_manager y (finish_delete removed u y.manager);
        sweeper = next now rest;
      }
unfolding run_task task_step resume step
deleted settings y now u rest removed h =
    rw (find-first u y.deleting, remove-first u y.deleting, h) refl

run_none : (settings : Settings) (t : Task) → run_task settings t [] ≡ t
unfolding run_task
run_none settings t = refl

one_session :
    (settings : Settings) (y : System) (now : ℕ) (s : Session) (rest : List Session)
    (removed : Bool)
    → (let tried =
          task_step settings
            (record { system = y; sweeper = trying now (s ∷ rest) })
            (tries true) in
        run_task settings tried (settled removed tried.sweeper))
      ≡ record {
        system = with_manager y (
            if is_free y s.ref
            then swept_one removed (sweep_deletes settings now s y.manager) y.manager
            else y.manager);
        sweeper = next now rest;
      }
unfolding task_step try_next try_acquire_lock
one_session settings y now s rest removed = elim (Bool-cases (is_free y s.ref)) [
  | inr f ↦ rw f (nothing rest)
  | inl f ↦ rw f (elim (Option-cases (sweep_deletes settings now s y.manager)) [
    | inl e ↦ rw e (nothing rest)
    | inr (u, e) ↦ rw e (
        let (l, same, idle) = sweep_deletes-found settings now s y.manager u e in
        deleted settings y now u rest removed (
          find-absent u.ref y.deleting
            (subst (λ r. count_refs r y.deleting ≡ 0) (sym same) (idle-deleting y s.ref f))))
  ])
]
  where
    nothing :
        (l : List Session)
        → run_task settings
            (record { system = y; sweeper = next now l })
            (settled removed (next now l))
          ≡ record { system = with_manager y y.manager; sweeper = next now l }
    nothing [] = run_none settings (record { system = y; sweeper = asleep })
    nothing (x ∷ l) = run_none settings (record { system = y; sweeper = trying now (x ∷ l) })

-- A round of the task that no other coroutine interrupts is `sweep_once`.
round-sweep_once :
    (settings : Settings) (y : System) (now : ℕ) (snapshot : List (Session × Bool))
    → round settings snapshot (record { system = y; sweeper = next now (firsts snapshot) })
      ≡ record {
        system = record y { manager = sweep_once settings now (is_free y) snapshot y.manager };
        sweeper = asleep;
      }
unfolding round sweep_once
round-sweep_once settings y now [] = refl
round-sweep_once settings y now ((s, removed) ∷ rest) =
    ap (round settings rest) (one_session settings y now s (firsts rest) removed)
    ∙ round-sweep_once settings
        (with_manager y (
          if is_free y s.ref
          then swept_one removed (sweep_deletes settings now s y.manager) y.manager
          else y.manager))
        now rest

-- A round of the sweep's task, from the end of its sleep to its next sleep, that no other coroutine
-- interrupts: it leaves exactly the sessions whose lock is held or that have been used within
-- SESSION_INACTIVITY_TIMEOUT_SECONDS, in their order, whichever of the directories cannot be removed. It
-- changes no other coroutine, and it ends asleep, with every lock that it took given back.
pub round-filter :
    (settings : Settings) (y : System) (now : ℕ) (snapshot : List (Session × Bool))
    → Unique y.sessions
    → y.sessions ≡ firsts snapshot
    → (round settings snapshot
          (task_step settings (record { system = y; sweeper = asleep }) (wakes now))
        ≡ record {
          system = record y { manager = sweep_once settings now (is_free y) snapshot y.manager };
          sweeper = asleep;
        })
      × ((sweep_once settings now (is_free y) snapshot y.manager).sessions
          ≡ filter (λ s. not (is_expired settings now (is_free y) y.manager s)) y.sessions)
unfolding task_step
round-filter settings y now snapshot u h = (
  ap (λ l. round settings snapshot (record { system = y; sweeper = next now l })) h
      ∙ round-sweep_once settings y now snapshot,
  sweep_once-filter settings now (is_free y) snapshot y.manager u h,
)
