-- ===== src/Manager/Reserve.antt =====
-- What `create` changes up to its await: the allocation of a project id, and the new entry.
use code_executor_api.Prelude.{
  err, leb, Bool-cases, ℕ, suc, ◌≤◌, ◌<◌, Text, ◌≡◌, refl, subst, Bool, true, false, inl, inr,
  Option, none, some, List, [], ◌∷◌, ok, arith, length, Result-cases, ◌+◌, ◌⊎◌, max,
}
use code_executor_api.Config.{Settings}
use code_executor_api.Manager.{
  Session, SessionError, Manager, project_id_max, project_id_for, insert, create_reserve,
  allocate_project_id,
}
use code_executor_api.Manager.Registry.{count, has_id}

-- What `create` takes for a project id: none, a freed one, or the next one.
pub data Allocation (m m' : Manager) : Option ℕ → Type 0 where
  unlimited :
      m'.next_project_id ≡ m.next_project_id
      → m'.free_project_ids ≡ m.free_project_ids
      → Allocation m m' none
  reused :
      (n : ℕ)
      → m'.next_project_id ≡ m.next_project_id
      → m.free_project_ids ≡ n ∷ m'.free_project_ids
      → Allocation m m' (some n)
  first_used :
      (n : ℕ)
      → n ≡ m.next_project_id
      → m'.next_project_id ≡ suc m.next_project_id
      → m'.free_project_ids ≡ m.free_project_ids
      → m.next_project_id ≤ project_id_max
      → Allocation m m' (some n)

pub record Allocates (m m' : Manager) (id : Option ℕ) : Type 0 where
  pub kind : Allocation m m' id
  pub sessions_eq : m'.sessions ≡ m.sessions
  pub slots_eq : m'.slots ≡ m.slots

allocate-Allocates :
    (m : Manager) (free : List ℕ) (n : ℕ) (m' : Manager)
    → m.free_project_ids ≡ free
    → allocate_project_id m ≡ ok (n, m')
    → Allocates m m' (some n)
unfolding allocate_project_id
allocate-Allocates m [] n m' f h = record {
  kind = first_used n (ground arith) (ground arith) (ground arith) (ground arith);
  sessions_eq = ground arith;
  slots_eq = ground arith;
}
allocate-Allocates m (k ∷ free) n m' f h = record {
  kind = reused n (ground arith) (ground arith);
  sessions_eq = ground arith;
  slots_eq = ground arith;
}

project_id_for-Allocates :
    (b : Bool) (m : Manager) (id : Option ℕ) (m' : Manager)
    → project_id_for b m ≡ ok (id, m')
    → Allocates m m' id
project_id_for-Allocates false m id m' h =
    let e : none ≡ id = ground arith in
    subst (Allocates m m') e (record {
      kind = unlimited (ground arith) (ground arith);
      sessions_eq = ground arith;
      slots_eq = ground arith;
    })
project_id_for-Allocates true m id m' h = elim (Result-cases (allocate_project_id m)) [
  | inl ((n, m1), e) ↦
      let p : some n ≡ id = ground (arith, e) in
      let q : m1 ≡ m' = ground (arith, e) in
      subst (Allocates m m') p (
        subst (λ x. Allocates m x (some n)) q (allocate-Allocates m m.free_project_ids n m1 refl e))
  | inr (f, e) ↦ absurd (ground (arith, e))
]

pub record Reserves (settings : Settings) (m : Manager) (s : Session) (m' : Manager) : Type 0 where
  pub middle : Manager
  pub allocates : Allocates m middle s.project_id
  pub room : length m.sessions < settings.max_sessions
  pub sessions_eq : m'.sessions ≡ insert s m.sessions
  pub free_eq : m'.free_project_ids ≡ middle.free_project_ids
  pub next_eq : m'.next_project_id ≡ middle.next_project_id

pub create_reserve-Reserves :
    (settings : Settings) (ref : ℕ) (token : Text) (mkdtemp : Option Text) (now : ℕ) (m : Manager)
    (s : Session) (m' : Manager)
    → create_reserve settings ref token mkdtemp now m ≡ ok (s, m')
    → (s.id ≡ token) × (s.ref ≡ ref) × (m'.slots ≡ m.slots) × Reserves settings m s m'
unfolding create_reserve
create_reserve-Reserves settings ref token mkdtemp now m s m' h =
    elim (Result-cases (project_id_for settings.quota_enabled m)) [
      | inl ((id, middle), e) ↦
          let a : Allocates m middle id = project_id_for-Allocates _ m id middle e in
          let p : id ≡ s.project_id = ground arith in
          (
            ground arith,
            ground arith,
            ground (arith, a.slots_eq),
            record {
              middle = middle;
              allocates = subst (Allocates m middle) p a;
              room = ground arith;
              sessions_eq = ground (arith, a.sessions_eq);
              free_eq = ground arith;
              next_eq = ground arith;
            },
          )
      | inr (f, e) ↦ absurd (ground (arith, e))
    ]

allocate-refused :
    (m : Manager) (free : List ℕ) (e : SessionError)
    → m.free_project_ids ≡ free
    → allocate_project_id m ≡ err e
    → (m.free_project_ids ≡ []) × (project_id_max < m.next_project_id)
unfolding allocate_project_id
allocate-refused m [] e f h = (f, ground arith)
allocate-refused m (k ∷ free) e f h = absurd (ground arith)

project_id_for-refused :
    (b : Bool) (m : Manager) (e : SessionError)
    → project_id_for b m ≡ err e
    → (b ≡ true) × ((m.free_project_ids ≡ []) × (project_id_max < m.next_project_id))
project_id_for-refused false m e h = absurd (ground arith)
project_id_for-refused true m e h = elim (Result-cases (allocate_project_id m)) [
  | inl ((n, m1), p) ↦ absurd (ground (arith, p))
  | inr (f, p) ↦ (refl, allocate-refused m m.free_project_ids f refl p)
]

-- A creation is refused for one of three reasons.
pub create_reserve-refused :
    (settings : Settings) (ref : ℕ) (token : Text) (mkdtemp : Option Text) (now : ℕ) (m : Manager)
    (e : SessionError)
    → create_reserve settings ref token mkdtemp now m ≡ err e
    → (settings.max_sessions ≤ length m.sessions)
      ⊎ ((mkdtemp ≡ none)
          ⊎ ((settings.quota_enabled ≡ true)
              × ((m.free_project_ids ≡ []) × (project_id_max < m.next_project_id))))
unfolding create_reserve
create_reserve-refused settings ref token none now m e h = inr (inl refl)
create_reserve-refused settings ref token (some d) now m e h =
    elim (Bool-cases (leb settings.max_sessions (length m.sessions))) [
      | inl full ↦ inl (ground (arith, full))
      | inr free ↦ elim (Result-cases (project_id_for settings.quota_enabled m)) [
        | inl ((id, m'), p) ↦ absurd (ground (arith, free, p))
        | inr (f, p) ↦ inr (inr (project_id_for-refused settings.quota_enabled m f p))
      ]
    ]

-- The count of a project id rises by the allocation only for the next one, and only by one.
pub count-Allocation :
    (n : ℕ) (m m' : Manager) (id : Option ℕ)
    → Allocation m m' id
    → ((has_id n id + count n m'.free_project_ids ≡ count n m.free_project_ids)
        × (m.next_project_id ≤ m'.next_project_id))
      ⊎ ((n ≡ m.next_project_id)
          × (has_id n id + count n m'.free_project_ids ≡ suc (count n m.free_project_ids))
          × (m'.next_project_id ≡ suc m.next_project_id))
unfolding count
count-Allocation n m m' _ (unlimited e f) = inl (rw f (omega arith), omega arith)
count-Allocation n m m' _ (reused k e f) = inl (rw f (omega arith), omega arith)
count-Allocation n m m' _ (first_used k e f g h) = rw g (ground arith)

pub next-Allocation :
    (m m' : Manager) (id : Option ℕ)
    → Allocation m m' id
    → (m.next_project_id ≤ m'.next_project_id)
      × (m'.next_project_id ≤ max m.next_project_id (suc project_id_max))
next-Allocation m m' _ (unlimited e f) = omega arith
next-Allocation m m' _ (reused k e f) = omega arith
next-Allocation m m' _ (first_used k e f g h) = omega arith
