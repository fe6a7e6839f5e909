-- ===== src/Publisher/Delivery.antt =====
-- Who is told of an event, and that one who fails does not keep it from the others.
use campusops.Common.{
  ◌≡◌, refl, ap, ◌∙◌, String, Bool, true, false, List, [], ◌∷◌, any, str_eq, str_eq_iff, arith,
  if◌then◌else◌,
}
use campusops.Common.Exec.{Exec}
use campusops.Errors.{Thrown}
use campusops.Publisher.{
  Subscribers, add, delete, subscribe_one, unsubscribe, handlers_of, publish, run_handlers,
}

module _ {O : Type 0} (same : O → O → Bool) where
  -- A subscription adds the observer to the set of its event, once, and touches no other event.
  pub handlers_of-subscribe_one :
      (type query : String) (o : O) (subs : Subscribers O)
      → handlers_of query (subscribe_one same type o subs) ≡ (
          if str_eq query type then add same o (handlers_of query subs) else handlers_of query subs)
  unfolding handlers_of subscribe_one
  handlers_of-subscribe_one type query o [] = ground arith
  handlers_of-subscribe_one type query o ((t, os) ∷ subs) =
      grind (arith, str_eq_iff, handlers_of-subscribe_one type query o subs)

  handlers_of-unsubscribe :
      (type query : String) (o : O) (subs : Subscribers O)
      → handlers_of query (unsubscribe same type o subs) ≡ (
          if str_eq query type
          then delete same o (handlers_of query subs)
          else handlers_of query subs)
  unfolding handlers_of unsubscribe
  handlers_of-unsubscribe type query o [] = ground arith
  handlers_of-unsubscribe type query o ((t, os) ∷ subs) =
      grind (arith, str_eq_iff, handlers_of-unsubscribe type query o subs)

  delete-add :
      (o : O) (os : List O)
      → same o o ≡ true
      → any (same o) os ≡ false
      → delete same o (add same o os) ≡ os
  delete-add o [] r h = ground arith
  delete-add o (p ∷ os) r h = grind (arith, delete-add o os r)

  -- Subscribing an observer that the event does not have and unsubscribing it again leaves who is
  -- told of any event as it was.
  pub unsubscribe_undoes :
      (type query : String) (o : O) (subs : Subscribers O)
      → same o o ≡ true
      → any (same o) (handlers_of type subs) ≡ false
      → handlers_of query (unsubscribe same type o (subscribe_one same type o subs))
        ≡ handlers_of query subs
  unsubscribe_undoes type query o subs r h = grind (
    arith,
    str_eq_iff,
    handlers_of-unsubscribe type query o (subscribe_one same type o subs),
    handlers_of-subscribe_one type query o subs,
    delete-add o (handlers_of type subs) r h,
  )

module _ {O S P : Type 0} (type : String) (payload : P) where
  run_isolated :
      (handle quiet : O → String → P → Exec S Thrown (Unit {0}))
      → ((o : O) (s : S) → (handle o type payload s).1 ≡ (quiet o type payload s).1)
      → (os : List O) (s : S)
      → (run_handlers handle type payload os s).1 ≡ (run_handlers quiet type payload os s).1
  unfolding run_handlers
  run_isolated handle quiet h [] s = refl
  run_isolated handle quiet h (o ∷ os) s =
      run_isolated handle quiet h os (handle o type payload s).1
      ∙ ap (λ (t : S). (run_handlers quiet type payload os t).1) (h o s)

  -- What an event does in the end does not depend on which observers fail: handlers that write the
  -- same before they return or throw leave the same state.
  pub publish_isolated :
      (handle quiet : O → String → P → Exec S Thrown (Unit {0}))
      → ((o : O) (s : S) → (handle o type payload s).1 ≡ (quiet o type payload s).1)
      → (subs : Subscribers O) (s : S)
      → (publish handle type payload subs s).1 ≡ (publish quiet type payload subs s).1
  unfolding publish
  publish_isolated handle quiet h subs s = run_isolated handle quiet h (handlers_of type subs) s
