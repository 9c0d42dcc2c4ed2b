-- ===== src/Manager/Recheck.antt =====
-- What a session that passed a check under its lock has: it is the one in the dictionary.
use code_executor_api.Prelude.{ℕ, ◌-◌, ◌<◌, ◌≡◌, some, ok, arith, inl, inr, Option-cases}
use code_executor_api.Config.{Settings}
use code_executor_api.Manager.{Session, Manager, lookup, get, recheck, sweep_deletes}

-- `m'` differs from `m` in `last_used` alone.
pub record Touches (m m' : Manager) : Type 0 where
  pub sessions_eq : m'.sessions ≡ m.sessions
  pub next_eq : m'.next_project_id ≡ m.next_project_id
  pub free_eq : m'.free_project_ids ≡ m.free_project_ids
  pub slots_eq : m'.slots ≡ m.slots

pub recheck-found :
    (s : Session) (now : ℕ) (m : Manager) (f : Session) (m' : Manager)
    → recheck s now m ≡ ok (f, m')
    → (lookup s.id m.sessions ≡ some f)
      × (f.ref ≡ s.ref)
      × (m'.last_used s.ref ≡ now)
      × Touches m m'
unfolding recheck get
recheck-found s now m f m' h = elim (Option-cases (lookup s.id m.sessions)) [
  | inl e ↦ absurd (ground (arith, e))
  | inr (g, e) ↦ (
    ground (arith, e),
    ground (arith, e),
    ground (arith, e),
    record {
      sessions_eq = ground (arith, e);
      next_eq = ground (arith, e);
      free_eq = ground (arith, e);
      slots_eq = ground (arith, e);
    },
  )
]

pub sweep_deletes-found :
    (settings : Settings) (now : ℕ) (s : Session) (m : Manager) (f : Session)
    → sweep_deletes settings now s m ≡ some f
    → (lookup s.id m.sessions ≡ some f)
      × (f.ref ≡ s.ref)
      × (settings.session_inactivity_timeout_seconds < now - m.last_used s.ref)
unfolding sweep_deletes
sweep_deletes-found settings now s m f h = ground arith
