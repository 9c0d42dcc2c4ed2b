-- ===== src/Manager/Safety/Deletes.antt =====
-- `_delete`, before and after its await, keeps the invariant.
use code_executor_api.Prelude.{ℕ, inl, inr, Bool, arith, Option-cases}
use code_executor_api.Config.{Settings}
use code_executor_api.Manager.Registry.{count_refs, count_refs-pop}
use code_executor_api.Manager.Invariant.{
  finish_delete-Inv, sessions-finish_delete, slots-finish_delete,
}
use code_executor_api.Manager.Frames.{
  Registered, same-Registered, count_refs-remove, count_refs-remove_found, count_refs-remove_le,
  All-remove, find-found, All-find, pop-Registered,
}
use code_executor_api.Manager.System.{System, step, deletes, removes, find, remove}
use code_executor_api.Manager.Safety.{IsSafe}

module _ {settings : Settings} {y : System} (v : IsSafe settings y) where
  pub deletes-IsSafe : (r : ℕ) → IsSafe settings (step settings y (deletes r))
  unfolding step count_refs
  deletes-IsSafe r = elim (Option-cases (find r y.running)) [
    | inl e ↦ rw e v
    | inr (s, e) ↦
        let here : Registered y.sessions s =
          All-find (Registered y.sessions) r y.running s v.running_in e in
        let moved = λ (q : ℕ). count_refs-remove q s.ref y.running s (find-found r y.running s e) in
        rw e (record {
          inv = v.inv;
          slots = v.slots;
          creating_in = v.creating_in;
          running_in = All-remove (Registered y.sessions) s.ref y.running v.running_in;
          deleting_in = (here, v.deleting_in);
          exclusive = λ q. omega (arith, v.exclusive q, moved q);
          unused = λ q h. omega (arith, v.unused q h, moved q);
        })
  ]

  pub removes-IsSafe : (r : ℕ) (done : Bool) → IsSafe settings (step settings y (removes r done))
  unfolding step
  removes-IsSafe r done = elim (Option-cases (find r y.deleting)) [
    | inl e ↦ rw e v
    | inr (s, e) ↦
        let here : Registered y.sessions s =
          All-find (Registered y.sessions) r y.deleting s v.deleting_in e in
        let mine = count_refs-remove_found r y.deleting s e in
        let one = v.exclusive s.ref in
        let gone = sessions-finish_delete s v.inv here done in
        rw e (record {
          inv = finish_delete-Inv s v.inv here done;
          slots = omega (arith, v.slots, slots-finish_delete done s y.manager);
          creating_in =
              same-Registered y.creating gone
                (pop-Registered s y.sessions y.creating here (omega arith) v.creating_in);
          running_in =
              same-Registered y.running gone
                (pop-Registered s y.sessions y.running here (omega arith) v.running_in);
          deleting_in = same-Registered (remove s.ref y.deleting) gone (
              pop-Registered s y.sessions (remove s.ref y.deleting) here (omega arith)
                (All-remove (Registered y.sessions) s.ref y.deleting v.deleting_in));
          exclusive = λ q. omega (arith, v.exclusive q, count_refs-remove_le q s.ref y.deleting);
          unused = λ q h. rw gone (
              omega (
                arith,
                v.unused q h,
                count_refs-remove_le q s.ref y.deleting,
                count_refs-pop q s.id y.sessions,
              ));
        })
  ]
