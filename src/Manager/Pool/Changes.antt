-- ===== src/Manager/Pool/Changes.antt =====
-- What a change of the registered sessions is to the pool.
use code_executor_api.Prelude.{
  suc, ◌<◌, Text, text_eq, text_eq_iff, text_eq_refl, ◌≡◌, ◌≢◌, refl, sym, ap, ◌∙◌, inl, inr, Bool,
  true, false, Option, none, some, List, [], ◌∷◌, arith, length, Bool-cases, ok, err,
}
use code_executor_api.Config.{Settings}
use code_executor_api.Manager.{Session, session_not_found, lookup, pop, insert, get}
use code_executor_api.Manager.Registry.{Unique, lookup-insert, lookup-pop_ne, lookup-pop_self}
use code_executor_api.Manager.System.{System}
use code_executor_api.Manager.Pool.{
  quiet, opening, closing, Action, stays, opens, closes, is_known, view,
}

abbrev is_some : Option Session → Bool
is_some none = false
is_some (some s) = true

live-lookup : (y : System) (k : Text) → (view y).live k ≡ is_some (lookup k y.sessions)
unfolding get
live-lookup y k = from (lookup k y.sessions)
  where
    from :
        (o : Option Session)
        → is_known (elim o [ none ↦ err session_not_found | some s ↦ ok s ]) ≡ is_some o
    from none = refl
    from (some s) = refl

length-insert_new :
    (s : Session) (l : List Session) → lookup s.id l ≡ none → length (insert s l) ≡ suc (length l)
unfolding lookup insert
length-insert_new s [] h = refl
length-insert_new s (t ∷ l) h = ground (arith, length-insert_new s l)

length-pop_found :
    (k : Text) (l : List Session) (s : Session)
    → lookup k l ≡ some s
    → length l ≡ suc (length (pop k l))
unfolding lookup pop
length-pop_found k [] s h = cc
length-pop_found k (t ∷ l) s h = ground (arith, length-pop_found k l s)

pub unchanged :
    (settings : Settings) (y z : System)
    → z.sessions ≡ y.sessions
    → z.executing ≡ y.executing
    → Action settings quiet (view y) (view z)
unchanged settings y z e x = stays (view y) (view z) (record {
  live_eq = λ k. live-lookup z k ∙ ap (λ l. is_some (lookup k l)) e ∙ sym (live-lookup y k);
  size_eq = ap length e;
  executing_eq = x;
})

apart_text : (j k : Text) → j ≢ k → text_eq k j ≡ false
apart_text j k ne = elim (Bool-cases (text_eq k j)) [
  | inl t ↦ absurd (ne (sym ((text_eq_iff k j).0 t)))
  | inr t ↦ t
]

pub inserted :
    (settings : Settings) (y z : System) (s : Session)
    → lookup s.id y.sessions ≡ none
    → length y.sessions < settings.max_sessions
    → z.sessions ≡ insert s y.sessions
    → z.executing ≡ y.executing
    → Action settings (opening s.id) (view y) (view z)
inserted settings y z s new room e x = opens (view y) (view z) s.id (record {
  free = live-lookup y s.id ∙ ap is_some new;
  room = room;
  opened =
      live-lookup z s.id
      ∙ ap (λ l. is_some (lookup s.id l)) e
      ∙ rw (lookup-insert s.id s y.sessions, text_eq_refl s.id) refl;
  others = λ j ne.
      live-lookup z j
      ∙ ap (λ l. is_some (lookup j l)) e
      ∙ rw (lookup-insert j s y.sessions) (rw (apart_text j s.id ne) refl)
      ∙ sym (live-lookup y j);
  size_eq = ap length e ∙ length-insert_new s y.sessions new;
  executing_eq = x;
})

pub popped :
    (settings : Settings) (y z : System) (s : Session)
    → Unique y.sessions
    → lookup s.id y.sessions ≡ some s
    → z.sessions ≡ pop s.id y.sessions
    → z.executing ≡ y.executing
    → Action settings (closing s.id) (view y) (view z)
popped settings y z s u h e x = closes (view y) (view z) s.id (record {
  known = live-lookup y s.id ∙ ap is_some h;
  closed =
      live-lookup z s.id
      ∙ ap (λ l. is_some (lookup s.id l)) e
      ∙ ap is_some (lookup-pop_self s.id y.sessions u);
  others = λ j ne.
      live-lookup z j
      ∙ ap (λ l. is_some (lookup j l)) e
      ∙ ap is_some (lookup-pop_ne j s.id y.sessions ne)
      ∙ sym (live-lookup y j);
  size_eq = length-pop_found s.id y.sessions s h ∙ ap (λ l. suc (length l)) (sym e);
  executing_eq = x;
})
