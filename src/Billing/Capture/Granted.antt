-- ===== src/Billing/Capture/Granted.antt =====
-- A captured payment whose calls all succeed: what the request leaves behind.
use study_mate.Prelude.{
  ap, ℕ, ◌+◌, ◌*◌, ◌≡◌, ◌≢◌, refl, ◌∙◌, ◌<◌, String, false, true, some, none, Option, [], ◌∷◌, any,
  find, find-update, update, str_ne, arith, not, ◌==◌, inl, inr, Bool-cases, if◌then◌else◌,
}
use study_mate.Exec.{ok, call}
use study_mate.Json.{Fields, get, as_string}
use study_mate.Billing.Model.{
  razorpay, is_completed, pending, failed, Subscription, Payment, Plan, Store, payment_captured,
  Env, plan_not_found,
}
use study_mate.Billing.Repository.{
  get_payment_by_provider_order_id, is_order, has_event_id, event_exists, insert_payment_event,
  mark_payment_completed, is_pending_row, complete, upsert_active_subscription, upserted,
  is_of_user, is_live, mark_payment_event_processed, entitlements, or_missing, get_plan_by_id,
  get_entitlements,
}
use study_mate.Billing.Webhook.{
  handle_razorpay_payment_captured, dispatch_razorpay, process_razorpay, razorpay_order_id,
  razorpay_payment_id, notify_payment_captured, deliver, plan_name, expiry_of,
}
use study_mate.Billing.Capture.{
  recorded, extended_end, renewed_end-later_of, granted, live-upserted,
}

-- the store after the notification
told : Env → ℕ → ℕ → ℕ → Store → Store
told env now user_id plan_id s = if not env.has_notifier then s else record s {
  outbox =
      payment_captured user_id
        (plan_name (or_missing plan_not_found (find (λ p. p.id == plan_id) s.plans)))
        (expiry_of (now + 30 * 24 * 3600) (ok (entitlements now user_id s)))
      ∷ s.outbox;
}

notify-nil :
    (env : Env) (now user_id plan_id : ℕ) (s : Store)
    → notify_payment_captured env now user_id plan_id (record { store = s; faults = [] })
      ≡ (ok tt, record { store = told env now user_id plan_id s; faults = [] })
unfolding notify_payment_captured get_plan_by_id get_entitlements deliver call told
notify-nil env now user_id plan_id s = elim (Bool-cases env.has_notifier) [
  | inl e ↦ rw e refl
  | inr e ↦ rw e refl
]

-- the store after the payment and the subscription
paid : Env → ℕ → String → String → Fields → Payment → Store → Store
paid env now payload id event p s =
    let ref = razorpay_payment_id event in
    record (recorded payload id event s) {
      payments = update (is_pending_row p.id) (complete ref now) s.payments;
      subscriptions = upserted env now p.user_id p.plan_id razorpay ref s.subscriptions;
    }

-- the store after the whole request
settled : Env → ℕ → String → String → Fields → Payment → Store → Store
settled env now payload id event p s =
    let after = told env now p.user_id p.plan_id (paid env now payload id event p s) in
    record after {
      events = update (λ e. e.id == s.next_id) (λ e. record e { processed = true }) after.events;
    }

-- a notification changes the outbox alone
module _ (env : Env) (now user_id plan_id : ℕ) (s : Store) where
  payments-told : (told env now user_id plan_id s).payments ≡ s.payments
  unfolding told
  payments-told = ground arith

  subscriptions-told : (told env now user_id plan_id s).subscriptions ≡ s.subscriptions
  unfolding told
  subscriptions-told = ground arith

  plans-told : (told env now user_id plan_id s).plans ≡ s.plans
  unfolding told
  plans-told = ground arith

-- the entitlements of a user with a live row on a known plan
entitled :
    (now user_id : ℕ) (s : Store) (b : Subscription) (pl : Plan)
    → find (is_live now user_id) s.subscriptions ≡ some b
    → find (λ x. x.id == b.plan_id) s.plans ≡ some pl
    → ((entitlements now user_id s).has_active_sub ≡ true)
      × ((entitlements now user_id s).expires_at ≡ b.ends_at)
unfolding entitlements
entitled now user_id s b pl h k = rw (h, k) (refl, refl)

granted_plan :
    (env : Env) (now user_id plan_id : ℕ) (ref : String) (o : Option Subscription)
    → (granted env now user_id plan_id razorpay ref o).plan_id ≡ plan_id
unfolding granted
granted_plan env now user_id plan_id ref none = refl
granted_plan env now user_id plan_id ref (some b) = refl

granted_end :
    (env : Env) (now user_id plan_id : ℕ) (ref : String) (o : Option Subscription)
    → (granted env now user_id plan_id razorpay ref o).ends_at ≡ some (extended_end env now o)
unfolding granted extended_end
granted_end env now user_id plan_id ref none = refl
granted_end env now user_id plan_id ref (some b) =
    ap some (renewed_end-later_of env now b.status b.ends_at)

module _ (env : Env) (now : ℕ) (payload id : String) (event : Fields) (p : Payment)
    (s : Store) where
  captured-nil :
      any (has_event_id id) s.events ≡ false
      → as_string (get "event" event) ≡ "payment.captured"
      → razorpay_order_id event ≢ ""
      → find (is_order razorpay (razorpay_order_id event)) s.payments ≡ some p
      → is_completed p.status ≡ false
      → process_razorpay env now payload id event (record { store = s; faults = [] })
        ≡ (ok tt, record { store = settled env now payload id event p s; faults = [] })
  unfolding process_razorpay event_exists insert_payment_event call dispatch_razorpay
      handle_razorpay_payment_captured get_payment_by_provider_order_id mark_payment_completed
      upsert_active_subscription mark_payment_event_processed settled paid
  captured-nil h k o q c = rw (h, h, k, str_ne _ _ o, q, c, notify-nil)

  payment-settled :
      find (is_order razorpay (razorpay_order_id event)) s.payments ≡ some p
      → find
          (is_order razorpay (razorpay_order_id event))
          (settled env now payload id event p s).payments
        ≡ some (if is_pending_row p.id p then complete (razorpay_payment_id event) now p else p)
  unfolding settled paid
  payment-settled q = rw payments-told (
      find-update (is_order razorpay (razorpay_order_id event)) (is_pending_row p.id)
        (complete (razorpay_payment_id event) now) s.payments p (λ y. refl) q)

  settled-entitlements :
      (pl : Plan)
      → find (λ x. x.id == p.plan_id) s.plans ≡ some pl
      → ((t : ℕ) → t < env.add_month t)
      → let ent = entitlements now p.user_id (settled env now payload id event p s) in
        (ent.has_active_sub ≡ true)
        × (ent.expires_at
            ≡ some (extended_end env now (find (is_of_user p.user_id) s.subscriptions)))
  unfolding settled paid
  settled-entitlements pl f grows =
      let ref = razorpay_payment_id event in
      let old = find (is_of_user p.user_id) s.subscriptions in
      let after = settled env now payload id event p s in
      let r =
        entitled now p.user_id after (granted env now p.user_id p.plan_id razorpay ref old) pl
          (rw subscriptions-told
            (live-upserted env now p.user_id p.plan_id razorpay ref s.subscriptions grows))
          (rw (plans-told, granted_plan) f) in
      (r.0, r.1 ∙ granted_end env now p.user_id p.plan_id ref old)

-- A captured event for a pending payment, not seen before and with no failing call: the request
-- succeeds, the payment is completed with the provider's reference at that instant, and the user is
-- entitled until a month after the end of the running period, or after now if none runs. It is
-- assumed that a month has positive length and that the payment's plan exists.
pub captured_grants :
    (env : Env) (now : ℕ) (payload id : String) (event : Fields) (s : Store) (p : Payment)
    (pl : Plan)
    → any (has_event_id id) s.events ≡ false
    → as_string (get "event" event) ≡ "payment.captured"
    → razorpay_order_id event ≢ ""
    → find (is_order razorpay (razorpay_order_id event)) s.payments ≡ some p
    → p.status ≡ pending
    → find (λ x. x.id == p.plan_id) s.plans ≡ some pl
    → ((t : ℕ) → t < env.add_month t)
    → let r = process_razorpay env now payload id event (record { store = s; faults = [] }) in
      let ent = entitlements now p.user_id r.1.store in
      (r.0 ≡ ok tt)
      × (find (is_order razorpay (razorpay_order_id event)) r.1.store.payments
          ≡ some (complete (razorpay_payment_id event) now p))
      × (ent.has_active_sub ≡ true)
      × (ent.expires_at ≡ some (extended_end env now (find (is_of_user p.user_id) s.subscriptions)))
captured_grants env now payload id event s p pl h k o q c f grows =
    let ent = settled-entitlements env now payload id event p s pl f grows in
    rw (captured-nil env now payload id event p s h k o q (ground (arith, c)))
      (refl, payment-settled env now payload id event p s q ∙ ground (arith, c), ent.0, ent.1)

-- A captured event for a payment that is marked failed, not seen before and with no failing call:
-- the request succeeds and extends the user's period like a first payment, and the payment stays
-- failed, so the next such event extends the period again.
pub captured_after_failure :
    (env : Env) (now : ℕ) (payload id : String) (event : Fields) (s : Store) (p : Payment)
    (pl : Plan)
    → any (has_event_id id) s.events ≡ false
    → as_string (get "event" event) ≡ "payment.captured"
    → razorpay_order_id event ≢ ""
    → find (is_order razorpay (razorpay_order_id event)) s.payments ≡ some p
    → p.status ≡ failed
    → find (λ x. x.id == p.plan_id) s.plans ≡ some pl
    → ((t : ℕ) → t < env.add_month t)
    → let r = process_razorpay env now payload id event (record { store = s; faults = [] }) in
      let ent = entitlements now p.user_id r.1.store in
      (r.0 ≡ ok tt)
      × (find (is_order razorpay (razorpay_order_id event)) r.1.store.payments ≡ some p)
      × (ent.has_active_sub ≡ true)
      × (ent.expires_at ≡ some (extended_end env now (find (is_of_user p.user_id) s.subscriptions)))
captured_after_failure env now payload id event s p pl h k o q c f grows =
    let ent = settled-entitlements env now payload id event p s pl f grows in
    rw (captured-nil env now payload id event p s h k o q (ground (arith, c)))
      (refl, payment-settled env now payload id event p s q ∙ ground (arith, c), ent.0, ent.1)
