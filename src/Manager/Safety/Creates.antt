-- ===== src/Manager/Safety/Creates.antt =====
-- `create`, before and after its await, keeps the invariant.
use code_executor_api.Prelude.{
  ℕ, Text, ◌≡◌, refl, inl, inr, Option, none, ◌∷◌, arith, Option-cases, Result-cases, text_eq_refl,
}
use code_executor_api.Config.{Settings}
use code_executor_api.Manager.{lookup, create_reserve}
use code_executor_api.Manager.Registry.{
  count_refs, lookup-insert, count_refs-insert, count_refs-pop,
}
use code_executor_api.Manager.Reserve.{create_reserve-Reserves}
use code_executor_api.Manager.Invariant.{
  reserve-Inv, create_abort-Inv, sessions-create_abort, slots-create_abort,
}
use code_executor_api.Manager.Frames.{
  Registered, same-Registered, count_refs-remove_found, count_refs-remove_le, All-remove, All-find,
  insert-Registered, pop-Registered,
}
use code_executor_api.Manager.System.{System, step, reserves, created, create_fails, find, remove}
use code_executor_api.Manager.Safety.{IsSafe}

module _ {settings : Settings} {y : System} (v : IsSafe settings y) where
  pub reserves-IsSafe :
      (token : Text) (mkdtemp : Option Text) (now : ℕ)
      → lookup token y.sessions ≡ none
      → IsSafe settings (step settings y (reserves token mkdtemp now))
  unfolding step count_refs
  reserves-IsSafe token mkdtemp now new =
      elim (Result-cases (create_reserve settings y.next_ref token mkdtemp now y.manager)) [
        | inr (e, p) ↦ rw p v
        | inl ((s, m), p) ↦
            let (i, r, sl, res) =
              create_reserve-Reserves settings y.next_ref token mkdtemp now y.manager s m p in
            let fresh : lookup s.id y.sessions ≡ none = rw i new in
            rw p (record {
              inv = reserve-Inv v.inv fresh res;
              slots = omega (arith, v.slots, sl);
              creating_in = same-Registered (s ∷ y.creating) res.sessions_eq (
                rw (lookup-insert s.id s y.sessions, text_eq_refl) refl,
                insert-Registered s y.sessions y.creating fresh v.creating_in,
              );
              running_in =
                  same-Registered y.running res.sessions_eq
                    (insert-Registered s y.sessions y.running fresh v.running_in);
              deleting_in =
                  same-Registered y.deleting res.sessions_eq
                    (insert-Registered s y.sessions y.deleting fresh v.deleting_in);
              exclusive = λ q. ground (arith, v.exclusive q, v.unused q);
              unused = λ q h.
                  rw res.sessions_eq
                    (ground (arith, v.unused q, count_refs-insert q s y.sessions, r));
            })
      ]

  pub created-IsSafe : (r : ℕ) → IsSafe settings (step settings y (created r))
  unfolding step
  created-IsSafe r = record {
    inv = v.inv;
    slots = v.slots;
    creating_in = All-remove (Registered y.sessions) r y.creating v.creating_in;
    running_in = v.running_in;
    deleting_in = v.deleting_in;
    exclusive = λ q. omega (arith, v.exclusive q, count_refs-remove_le q r y.creating);
    unused = λ q h. omega (arith, v.unused q h, count_refs-remove_le q r y.creating);
  }

  pub create_fails-IsSafe : (r : ℕ) → IsSafe settings (step settings y (create_fails r))
  unfolding step
  create_fails-IsSafe r = elim (Option-cases (find r y.creating)) [
    | inl e ↦ rw e v
    | inr (s, e) ↦
        let here : Registered y.sessions s =
          All-find (Registered y.sessions) r y.creating s v.creating_in e in
        let mine = count_refs-remove_found r y.creating s e in
        let one = v.exclusive s.ref in
        rw e (record {
          inv = create_abort-Inv s v.inv here;
          slots = omega (arith, v.slots, slots-create_abort s y.manager);
          creating_in =
              same-Registered (remove s.ref y.creating) (sessions-create_abort s v.inv here) (
                pop-Registered s y.sessions (remove s.ref y.creating) here (omega arith)
                  (All-remove (Registered y.sessions) s.ref y.creating v.creating_in));
          running_in =
              same-Registered y.running (sessions-create_abort s v.inv here)
                (pop-Registered s y.sessions y.running here (omega arith) v.running_in);
          deleting_in =
              same-Registered y.deleting (sessions-create_abort s v.inv here)
                (pop-Registered s y.sessions y.deleting here (omega arith) v.deleting_in);
          exclusive = λ q. omega (arith, v.exclusive q, count_refs-remove_le q s.ref y.creating);
          unused = λ q h. rw (sessions-create_abort s v.inv here) (
              omega (
                arith,
                v.unused q h,
                count_refs-remove_le q s.ref y.creating,
                count_refs-pop q s.id y.sessions,
              ));
        })
  ]
