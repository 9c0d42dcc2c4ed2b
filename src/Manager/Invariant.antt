-- ===== src/Manager/Invariant.antt =====
-- What every interleaving keeps of the manager's own state: the registry, the XFS project ids and
-- the execution slots.
use code_executor_api.Prelude.{
  ℕ, suc, ◌+◌, ◌≤◌, ◌<◌, ◌≡◌, refl, Bool, true, false, ◌⊎◌, none, some, arith, length,
}
use code_executor_api.Config.{Settings}
use code_executor_api.Manager.{
  init, Session, Manager, lookup, pop, project_id_base, project_id_max, create_abort, finish_delete,
}
use code_executor_api.Manager.Reserve.{Reserves, count-Allocation, next-Allocation}
use code_executor_api.Manager.Registry.{
  count_ids, count, Unique, count_ids-pop, count_ids-insert, length-pop, length-insert, pop-Unique,
  insert-Unique,
}

-- How often a project id is in use or free.
abbrev pub uses : ℕ → Manager → ℕ
uses n m = count_ids n m.sessions + count n m.free_project_ids

pub record Inv (settings : Settings) (m : Manager) : Type 0 where
  pub keys : Unique m.sessions
  pub once : (n : ℕ) → uses n m ≤ 1
  pub fresh : (n : ℕ) → m.next_project_id ≤ n → uses n m ≡ 0
  pub based : (n : ℕ) → n < project_id_base → uses n m ≡ 0
  pub from : project_id_base ≤ m.next_project_id
  pub to : m.next_project_id ≤ suc project_id_max
  pub capacity : length m.sessions ≤ settings.max_sessions

-- The first part of `create` keeps it, if the token is new.
module _ {settings : Settings} {m m' : Manager} {s : Session} (v : Inv settings m)
    (new : lookup s.id m.sessions ≡ none) (r : Reserves settings m s m') where
  uses-reserve :
      (n : ℕ)
      → ((uses n m' ≡ uses n m) × (m.next_project_id ≤ m'.next_project_id))
        ⊎ ((n ≡ m.next_project_id)
            × (uses n m' ≡ suc (uses n m))
            × (m'.next_project_id ≡ suc m.next_project_id))
  uses-reserve n =
      rw (r.sessions_eq, r.free_eq, r.next_eq)
        (ground (
          arith,
          count-Allocation n m r.middle s.project_id r.allocates.kind,
          count_ids-insert n s m.sessions new,
        ))

  pub reserve-Inv : Inv settings m'
  reserve-Inv = record {
    keys = rw r.sessions_eq (insert-Unique s m.sessions v.keys);
    once = λ n. ground (arith, uses-reserve n, v.once n, v.fresh n);
    fresh = λ n h. ground (arith, uses-reserve n, v.fresh n);
    based = λ n h. ground (arith, uses-reserve n, v.based n, v.from);
    from =
        omega (arith, v.from, r.next_eq, next-Allocation m r.middle s.project_id r.allocates.kind);
    to = omega (arith, v.to, r.next_eq, next-Allocation m r.middle s.project_id r.allocates.kind);
    capacity = rw r.sessions_eq (omega (arith, r.room, length-insert s m.sessions));
  }

-- So do the removals: of a `create` whose quota failed, and of a `_delete`.
module _ {settings : Settings} {m : Manager} (s : Session) (v : Inv settings m)
    (here : lookup s.id m.sessions ≡ some s) where
  uses-released : (n : ℕ) → uses n (finish_delete true s m) ≡ uses n m
  unfolding finish_delete count
  uses-released n = ground (arith, count_ids-pop n s.id m.sessions s here)

  uses-held_back : (n : ℕ) → uses n (finish_delete false s m) ≤ uses n m
  unfolding finish_delete
  uses-held_back n = omega (arith, count_ids-pop n s.id m.sessions s here)

  next-finish_delete : (done : Bool) → (finish_delete done s m).next_project_id ≡ m.next_project_id
  unfolding finish_delete
  next-finish_delete true = ground arith
  next-finish_delete false = refl

  pub sessions-finish_delete :
      (done : Bool) → (finish_delete done s m).sessions ≡ pop s.id m.sessions
  unfolding finish_delete
  sessions-finish_delete true = ground arith
  sessions-finish_delete false = refl

  uses-finish_delete : (done : Bool) (n : ℕ) → uses n (finish_delete done s m) ≤ uses n m
  uses-finish_delete true n = omega (arith, uses-released n)
  uses-finish_delete false n = uses-held_back n

  pub finish_delete-Inv : (done : Bool) → Inv settings (finish_delete done s m)
  finish_delete-Inv done = record {
    keys = rw sessions-finish_delete (pop-Unique s.id m.sessions v.keys);
    once = λ n. omega (arith, uses-finish_delete done n, v.once n);
    fresh = λ n h. omega (arith, uses-finish_delete done n, v.fresh n (rw next-finish_delete at h));
    based = λ n h. omega (arith, uses-finish_delete done n, v.based n h);
    from = rw next-finish_delete v.from;
    to = rw next-finish_delete v.to;
    capacity = rw sessions-finish_delete (omega (arith, v.capacity, length-pop s.id m.sessions));
  }

  abort-eq-delete : create_abort s m ≡ finish_delete true s m
  unfolding create_abort finish_delete
  abort-eq-delete = ground arith

  pub sessions-create_abort : (create_abort s m).sessions ≡ pop s.id m.sessions
  sessions-create_abort = rw abort-eq-delete (sessions-finish_delete true)

  pub create_abort-Inv : Inv settings (create_abort s m)
  create_abort-Inv = rw abort-eq-delete (finish_delete-Inv true)

pub slots-finish_delete :
    (done : Bool) (s : Session) (m : Manager) → (finish_delete done s m).slots ≡ m.slots
unfolding finish_delete
slots-finish_delete true s m = ground arith
slots-finish_delete false s m = refl

pub slots-create_abort : (s : Session) (m : Manager) → (create_abort s m).slots ≡ m.slots
unfolding create_abort
slots-create_abort s m = ground arith

-- Only the dictionary, the free list and the next project id matter.
pub same-Inv :
    {settings : Settings} (m m' : Manager)
    → m'.sessions ≡ m.sessions
    → m'.next_project_id ≡ m.next_project_id
    → m'.free_project_ids ≡ m.free_project_ids
    → Inv settings m
    → Inv settings m'
same-Inv m m' p q r v = record {
  keys = rw p v.keys;
  once = λ n. rw (p, r) (v.once n);
  fresh = λ n h. rw (p, r) (v.fresh n (rw q at h));
  based = λ n h. rw (p, r) (v.based n h);
  from = rw q v.from;
  to = rw q v.to;
  capacity = rw p v.capacity;
}

pub init-Inv : (settings : Settings) → Inv settings (init settings)
unfolding count_ids count
init-Inv settings = record {
  keys = tt;
  once = λ n. omega arith;
  fresh = λ n h. refl;
  based = λ n h. refl;
  from = omega arith;
  to = omega arith;
  capacity = omega arith;
}
