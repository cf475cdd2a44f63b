-- ===== src/Billing/Capture.antt =====
-- What a captured payment does: the payment, the subscription and the user's entitlements.
pub mod Granted
use study_mate.Prelude.{
  ap, sym, Bool-cases, inl, inr, ltb, ℕ, suc, ◌≡◌, ◌≢◌, refl, ◌<◌, String, Bool, false, true, ◌&&◌,
  some, none, Option, List, [], ◌∷◌, ◌++◌, any, find, update, str_eq, eq_iff, str_ne, str_refl,
  arith, Bool-cases, Option-cases, inl, inr, not, ◌==◌, ==_refl, if◌then◌else◌,
}
use study_mate.Exec.{Result, ok, err, IsError, World, call}
use study_mate.Json.{Fields, get, as_string}
use study_mate.Billing.Model.{
  razorpay, Provider, SubStatus, cancelled, inactive, is_completed, is_pending, completed, failed,
  pending, active, Payment, Subscription, Plan, Store, Env, database,
}
use study_mate.Billing.Repository.{
  get_payment_by_provider_order_id, is_order, has_event_id, event_exists, insert_payment_event,
  new_event, mark_payment_completed, is_pending_row, complete, upsert_active_subscription, upserted,
  is_of_user, is_live, new_subscription, renew, ends_after, renewed_end,
  mark_payment_event_processed, entitlements,
}
use study_mate.Billing.Webhook.{
  handle_razorpay_payment_captured, dispatch_razorpay, process_razorpay, razorpay_order_id,
  razorpay_payment_id, notify_payment_captured,
}
use study_mate.Billing.Webhook.Guards.{repeated_event}

-- the store once the event is recorded
abbrev pub recorded : String → String → Fields → Store → Store
recorded payload id event s = record s {
  events = s.events ++ new_event s.next_id id razorpay (as_string (get "event" event)) payload ∷ [];
  next_id = suc s.next_id;
}

any-snoc_self :
    (payload id : String) (event : Fields) (s : Store)
    → any (has_event_id id) (recorded payload id event s).events ≡ true
any-snoc_self payload id event s = go s.events
  where
    go :
        (es : List _)
        → any
            (has_event_id id)
            (es ++ new_event s.next_id id razorpay (as_string (get "event" event)) payload ∷ [])
          ≡ true
    go [] = ground (arith, eq_iff id id)
    go (e ∷ es) = ground (arith, go es)

interrupted_first :
    (env : Env) (now : ℕ) (payload id : String) (event : Fields) (s : Store) (fs : List Bool)
    → any (has_event_id id) s.events ≡ false
    → as_string (get "event" event) ≡ "payment.captured"
    → razorpay_order_id event ≢ ""
    → process_razorpay env now payload id event
        (record { store = s; faults = false ∷ false ∷ true ∷ fs })
      ≡ (err database, record { store = recorded payload id event s; faults = fs })
unfolding process_razorpay event_exists insert_payment_event call dispatch_razorpay
    handle_razorpay_payment_captured get_payment_by_provider_order_id
interrupted_first env now payload id event s fs h k o = rw (h, h, k, str_ne _ _ o)

-- If the lookup of the payment fails after a captured event was recorded, the callback ends in an
-- error with only the event added to the store, and from that store every redelivery of the event,
-- in any world, ends in an error and changes nothing: the payment is never completed by it.
pub interrupted_capture :
    (env : Env) (now later : ℕ) (payload id : String) (event : Fields) (s : Store)
    (fs gs : List Bool)
    → any (has_event_id id) s.events ≡ false
    → as_string (get "event" event) ≡ "payment.captured"
    → razorpay_order_id event ≢ ""
    → (process_razorpay env now payload id event
          (record { store = s; faults = false ∷ false ∷ true ∷ fs })
        ≡ (err database, record { store = recorded payload id event s; faults = fs }))
      × IsError
          (process_razorpay env later payload id event
            (record { store = recorded payload id event s; faults = gs })).0
      × ((process_razorpay env later payload id event
            (record { store = recorded payload id event s; faults = gs })).1.store
          ≡ recorded payload id event s)
interrupted_capture env now later payload id event s fs gs h k o =
    let again =
      repeated_event env later payload id event
        (record { store = recorded payload id event s; faults = gs })
        (any-snoc_self payload id event s) in
    (interrupted_first env now payload id event s fs h k o, again.0, again.1)

-- until when a subscription has been paid for
abbrev paid_until : SubStatus → Option ℕ → ℕ
paid_until active (some t) = t
paid_until _ _ = 0

abbrev later_of : ℕ → ℕ → ℕ
later_of a b = if ltb a b then b else a

-- the end of the period that a payment at `now` buys: a month after the end of the time that is paid
-- for, or after `now` if that is later
unfoldable pub extended_end : Env → ℕ → Option Subscription → ℕ
extended_end env now none = env.add_month now
extended_end env now (some b) = env.add_month (later_of now (paid_until b.status b.ends_at))

later_of-zero : (a : ℕ) → later_of a 0 ≡ a
later_of-zero a = ground arith

pub renewed_end-later_of :
    (env : Env) (now : ℕ) (st : SubStatus) (end : Option ℕ)
    → renewed_end env now st end ≡ env.add_month (later_of now (paid_until st end))
renewed_end-later_of env now active (some t) = elim (Bool-cases (ltb now t)) [
  | inl e ↦ rw e refl
  | inr e ↦ rw e refl
]
renewed_end-later_of env now active none = ap env.add_month (sym (later_of-zero now))
renewed_end-later_of env now cancelled end = ap env.add_month (sym (later_of-zero now))
renewed_end-later_of env now inactive end = ap env.add_month (sym (later_of-zero now))

-- the row that a payment leaves behind for its user
unfoldable pub granted : Env → ℕ → ℕ → ℕ → Provider → String → Option Subscription → Subscription
granted env now user_id plan_id provider ref none =
    new_subscription env now user_id plan_id provider ref
granted env now user_id plan_id provider ref (some b) = renew env now plan_id provider ref b

renewed_end_future :
    (env : Env) (now : ℕ) (b : Subscription)
    → ((t : ℕ) → t < env.add_month t)
    → now < renewed_end env now b.status b.ends_at
renewed_end_future env now b grows = go b.status b.ends_at
  where
    go : (st : SubStatus) (e : Option ℕ) → now < renewed_end env now st e
    go active none = grows now
    go active (some t) = ground (arith, grows now, grows t)
    go cancelled e = grows now
    go inactive e = grows now

module _ (env : Env) (now user_id plan_id : ℕ) (provider : Provider) (ref : String) where
  live-upserted :
      (bs : List Subscription)
      → ((t : ℕ) → t < env.add_month t)
      → find (is_live now user_id) (upserted env now user_id plan_id provider ref bs)
        ≡ some (granted env now user_id plan_id provider ref (find (is_of_user user_id) bs))
  unfolding upserted granted
  live-upserted [] grows = ground (arith, grows now)
  live-upserted (b ∷ bs) grows =
      ground (arith, renewed_end_future env now b grows, live-upserted bs grows)
