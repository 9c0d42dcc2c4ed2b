-- ===== src/Manager/Expiry.antt =====
-- A round of the sweep, and what a shutdown leaves.
use code_executor_api.Prelude.{
  ℕ, ◌-◌, text_eq, text_eq_iff, text_eq_refl, ◌≡◌, refl, ap, sym, subst, ◌∙◌, Bool, true, false,
  not, ◌&&◌, leb, filter, Option, none, some, List, [], ◌∷◌, ◌++◌, arith, Bool-cases, inl, inr,
  if◌then◌else◌,
}
use code_executor_api.Config.{Settings}
use code_executor_api.Manager.{
  Session, Manager, lookup, pop, finish_delete, release_project_id, sweep_deletes, delete_all,
}
use code_executor_api.Manager.Registry.{Unique, pop-Unique}

-- A session that `_sweep_once` has come to: what its tests say is deleted, with the outcome of
-- `_remove_tree`.
abbrev pub swept_one : Bool → Option Session → Manager → Manager
swept_one removed none m = m
swept_one removed (some s) m = finish_delete removed s m

-- `_sweep_once`, where no other coroutine comes in between: the snapshot, each with the outcome of its
-- `_remove_tree`, and what `_try_acquire_lock` says of each lock. The clock is read once.
unfoldable pub sweep_once : Settings → ℕ → (ℕ → Bool) → List (Session × Bool) → Manager → Manager
unfolding sweep_deletes finish_delete
sweep_once settings now free [] m = m
sweep_once settings now free ((s, removed) ∷ rest) m =
    sweep_once settings now free rest
      (if free s.ref then swept_one removed (sweep_deletes settings now s m) m else m)

abbrev pub firsts : List (Session × Bool) → List Session
firsts [] = []
firsts ((s, done) ∷ rest) = s ∷ firsts rest

sessions-delete_one :
    (done : Bool) (s : Session) (m : Manager)
    → (finish_delete done s m).sessions ≡ pop s.id m.sessions
unfolding finish_delete
sessions-delete_one true s m = ap (pop s.id) (released s.project_id m)
  where
    released : (p : Option ℕ) (n : Manager) → (release_project_id p n).sessions ≡ n.sessions
    released none n = refl
    released (some id) n = refl
sessions-delete_one false s m = refl

pop_head : (s : Session) (l : List Session) → pop s.id (s ∷ l) ≡ l
unfolding pop
pop_head s l = rw (text_eq_refl s.id) refl

-- A session whose lock is free and that has been unused for longer than the timeout.
abbrev pub is_expired : Settings → ℕ → (ℕ → Bool) → Manager → Session → Bool
is_expired settings now free m s =
    free s.ref && not (leb (now - m.last_used s.ref) settings.session_inactivity_timeout_seconds)

lookup-middle :
    (xs ys : List Session) (s : Session)
    → Unique (xs ++ s ∷ ys)
    → lookup s.id (xs ++ s ∷ ys) ≡ some s
unfolding lookup
lookup-middle [] ys s u = rw (text_eq_refl s.id) refl
lookup-middle (x ∷ xs) ys s u = elim (Bool-cases (text_eq x.id s.id)) [
  | inl t ↦
      let same : x.id ≡ s.id = (text_eq_iff x.id s.id).0 t in
      let p : lookup s.id (xs ++ s ∷ ys) ≡ none =
        subst (λ k. lookup k (xs ++ s ∷ ys) ≡ none) same u.0 in
      let q = lookup-middle xs ys s u.1 in absurd cc
  | inr t ↦ rw t (lookup-middle xs ys s u.1)
]

pop-middle :
    (xs ys : List Session) (s : Session)
    → Unique (xs ++ s ∷ ys)
    → pop s.id (xs ++ s ∷ ys) ≡ xs ++ ys
unfolding pop
pop-middle [] ys s u = rw (text_eq_refl s.id) refl
pop-middle (x ∷ xs) ys s u = elim (Bool-cases (text_eq x.id s.id)) [
  | inl t ↦
      let same : x.id ≡ s.id = (text_eq_iff x.id s.id).0 t in
      let p : lookup s.id (xs ++ s ∷ ys) ≡ none =
        subst (λ k. lookup k (xs ++ s ∷ ys) ≡ none) same u.0 in
      let q = lookup-middle xs ys s u.1 in absurd cc
  | inr t ↦ rw t (ap (λ l. x ∷ l) (pop-middle xs ys s u.1))
]

abbrev swept : Settings → ℕ → (ℕ → Bool) → Session → Bool → Manager → Manager
swept settings now free s removed m =
    if free s.ref then swept_one removed (sweep_deletes settings now s m) m else m

tested :
    (settings : Settings) (now : ℕ) (s : Session) (m : Manager)
    → lookup s.id m.sessions ≡ some s
    → sweep_deletes settings now s m ≡ (
        if not (leb (now - m.last_used s.ref) settings.session_inactivity_timeout_seconds)
        then some s
        else none)
unfolding sweep_deletes
tested settings now s m h = rw (sweep_deletes, h) (ground arith)

swept-expired :
    (settings : Settings) (now : ℕ) (free : ℕ → Bool) (s : Session) (removed : Bool) (m : Manager)
    → lookup s.id m.sessions ≡ some s
    → swept settings now free s removed m
      ≡ (if is_expired settings now free m s then finish_delete removed s m else m)
swept-expired settings now free s removed m h = elim (Bool-cases (free s.ref)) [
  | inr f ↦ rw f refl
  | inl f ↦
      rw (f, tested settings now s m h)
        (elim (Bool-cases
          (leb (now - m.last_used s.ref) settings.session_inactivity_timeout_seconds)) [
            | inl g ↦ rw g refl
            | inr g ↦ rw g refl
          ])
]

last_used-delete_one :
    (done : Bool) (s : Session) (m : Manager) → (finish_delete done s m).last_used ≡ m.last_used
unfolding finish_delete
last_used-delete_one true s m = released s.project_id m
  where
    released : (p : Option ℕ) (n : Manager) → (release_project_id p n).last_used ≡ n.last_used
    released none n = refl
    released (some id) n = refl
last_used-delete_one false s m = refl

snoc-append : (xs ys : List Session) (s : Session) → (xs ++ s ∷ []) ++ ys ≡ xs ++ s ∷ ys
snoc-append [] ys s = refl
snoc-append (x ∷ xs) ys s = ap (λ l. x ∷ l) (snoc-append xs ys s)

-- What is left after the sessions before, which are kept, and those of the snapshot that are to come.
sweep_once-rest :
    (settings : Settings) (now : ℕ) (free : ℕ → Bool) (snapshot : List (Session × Bool))
    (m : Manager) (kept : List Session) (last_used : ℕ → ℕ)
    → m.last_used ≡ last_used
    → m.sessions ≡ kept ++ firsts snapshot
    → Unique m.sessions
    → (sweep_once settings now free snapshot m).sessions
      ≡ kept
        ++ filter
            (λ s. not (
              free s.ref
              && not (leb (now - last_used s.ref) settings.session_inactivity_timeout_seconds)))
            (firsts snapshot)
unfolding sweep_once
sweep_once-rest settings now free [] m kept last_used e h u = h
sweep_once-rest settings now free ((s, removed) ∷ rest) m kept last_used e h u =
    let here : Unique (kept ++ s ∷ firsts rest) = subst Unique h u in
    let found : lookup s.id m.sessions ≡ some s =
      ap (lookup s.id) h ∙ lookup-middle kept (firsts rest) s here in
    ap (λ n. (sweep_once settings now free rest n).sessions)
      (swept-expired settings now free s removed m found)
    ∙ elim (Bool-cases (is_expired settings now free m s)) [
      | inl t ↦
          rw (t, expired_before t)
            (sweep_once-rest settings now free rest (finish_delete removed s m) kept last_used
              (last_used-delete_one removed s m ∙ e)
              (sessions-delete_one removed s m
                ∙ ap (pop s.id) h
                ∙ pop-middle kept (firsts rest) s here)
              (subst Unique (sym (sessions-delete_one removed s m)) (pop-Unique s.id m.sessions u)))
      | inr t ↦
          rw (t, expired_before t)
            (sweep_once-rest settings now free rest m (kept ++ s ∷ []) last_used e
                (h ∙ sym (snoc-append kept (firsts rest) s)) u
              ∙ snoc-append kept _ s)
    ]
  where
    expired_before :
        {b : Bool}
        → is_expired settings now free m s ≡ b
        → (free s.ref
            && not (leb (now - last_used s.ref) settings.session_inactivity_timeout_seconds))
          ≡ b
    expired_before {b = b} t =
        subst
          (λ (f : ℕ → ℕ).
            (free s.ref && not (leb (now - f s.ref) settings.session_inactivity_timeout_seconds))
            ≡ b)
          e t

-- A round of the sweep that no other coroutine interrupts leaves exactly the sessions whose lock is held
-- or that have been used within SESSION_INACTIVITY_TIMEOUT_SECONDS, in their order: every other is
-- deleted, whichever of the directories cannot be removed.
pub sweep_once-filter :
    (settings : Settings) (now : ℕ) (free : ℕ → Bool) (snapshot : List (Session × Bool))
    (m : Manager)
    → Unique m.sessions
    → m.sessions ≡ firsts snapshot
    → (sweep_once settings now free snapshot m).sessions
      ≡ filter (λ s. not (is_expired settings now free m s)) m.sessions
sweep_once-filter settings now free snapshot m u h =
    sweep_once-rest settings now free snapshot m [] m.last_used refl h u ∙ rw h refl

-- The shutdown deletes every session: whichever of the directories cannot be removed, none is
-- registered afterwards.
pub delete_all-empties :
    (snapshot : List (Session × Bool)) (m : Manager)
    → m.sessions ≡ firsts snapshot
    → (delete_all snapshot m).sessions ≡ []
unfolding delete_all
delete_all-empties [] m h = h
delete_all-empties ((s, done) ∷ rest) m h =
    delete_all-empties rest (finish_delete done s m)
      (sessions-delete_one done s m ∙ ap (pop s.id) h ∙ pop_head s (firsts rest))
