-- ===== src/Billing/Repository.antt =====
-- backend/internal/billing/repository.go: each method is one call of the database. Its SQL is a
-- function of the tables; a method that Postgres refuses changes nothing.
use study_mate.Prelude.{
  ℕ, suc, ◌-◌, ◌/◌, String, Bool, true, false, ◌&&◌, ◌||◌, not, Option, none, some, List, [], ◌∷◌,
  ◌++◌, str_eq, ◌==◌, ltb, find, any, update, if◌then◌else◌,
}
use study_mate.Prelude.Integer.{ℤ, pos, negsuc, is_positive}
use study_mate.Exec.{Result, ok, err, call}
use study_mate.Billing.Model.{
  Provider, pending, completed, failed, SubStatus, active, cancelled, same_provider, is_pending,
  is_active, Plan, UserProfile, Payment, Subscription, PaymentEvent, Entitlements, Store, Env,
  Error, database, unique_violation, payment_not_found, plan_not_found, user_not_found,
  free_scans_per_day, Billing,
}

abbrev pub or_missing : {A : Type 0} → Error → Option A → Result Error A
or_missing e none = err e
or_missing e (some a) = ok a

-- SELECT ... FROM plans WHERE slug = $1 AND active = true
unfoldable pub get_plan_by_slug : String → Billing Plan
get_plan_by_slug slug =
    call database
      λ s. (or_missing plan_not_found (find (λ p. str_eq p.slug slug && p.is_offered) s.plans), s)

-- SELECT ... FROM plans WHERE id = $1
unfoldable pub get_plan_by_id : ℕ → Billing Plan
get_plan_by_id plan_id =
    call database λ s. (or_missing plan_not_found (find (λ p. p.id == plan_id) s.plans), s)

-- SELECT id, name, email FROM users WHERE id = $1
unfoldable pub get_user_profile : ℕ → Billing UserProfile
get_user_profile user_id =
    call database λ s. (or_missing user_not_found (find (λ u. u.id == user_id) s.users), s)

-- the key of the unique index idx_payments_provider_order
abbrev pub is_order : Provider → String → Payment → Bool
is_order provider order_id p =
    same_provider p.provider provider && str_eq p.provider_order_id order_id

new_payment : ℕ → ℕ → ℕ → Provider → String → ℕ → String → Payment
new_payment id user_id plan_id provider order_id amount_paise currency = record {
  id = id;
  user_id = user_id;
  plan_id = plan_id;
  provider = provider;
  provider_order_id = order_id;
  amount_paise = amount_paise;
  currency = currency;
  status = pending;
  provider_payment_id = none;
  paid_at = none;
  transaction_id = some order_id;
}

-- INSERT INTO payments ... RETURNING id, under the unique index on (provider, provider_order_id)
unfoldable pub create_pending_payment : ℕ → ℕ → Provider → String → ℕ → String → Billing ℕ
unfolding new_payment
create_pending_payment user_id plan_id provider order_id amount_paise currency = call database λ s.
    if any (is_order provider order_id) s.payments then (err unique_violation, s) else (
      ok s.next_id,
      record s {
        payments =
            s.payments
            ++ new_payment s.next_id user_id plan_id provider order_id amount_paise currency ∷ [];
        next_id = suc s.next_id;
      },
    )

-- SELECT ... FROM payments WHERE provider = $1 AND provider_order_id = $2
unfoldable pub get_payment_by_provider_order_id : Provider → String → Billing Payment
get_payment_by_provider_order_id provider order_id =
    call database
      λ s. (or_missing payment_not_found (find (is_order provider order_id) s.payments), s)

abbrev pub coalesce : Option String → String → Option String
coalesce none d = some d
coalesce (some x) d = some x

-- WHERE id = $4 AND status = 'pending'
abbrev pub is_pending_row : ℕ → Payment → Bool
is_pending_row id p = p.id == id && is_pending p.status

abbrev pub complete : String → ℕ → Payment → Payment
complete ref at p = record p {
  status = completed;
  provider_payment_id = some ref;
  paid_at = some at;
  transaction_id = coalesce p.transaction_id ref;
}

unfoldable pub mark_payment_completed : ℕ → String → ℕ → Billing Unit
mark_payment_completed id ref at =
    call database
      λ s. (ok tt, record s { payments = update (is_pending_row id) (complete ref at) s.payments })

abbrev pub fail : Payment → Payment
fail p = record p { status = failed }

unfoldable pub mark_payment_failed : ℕ → Billing Unit
mark_payment_failed id =
    call database λ s. (ok tt, record s { payments = update (is_pending_row id) fail s.payments })

-- CASE WHEN status = 'active' AND ends_at > now() THEN ends_at + '1 month' ELSE now() + '1 month'
abbrev pub renewed_end : Env → ℕ → SubStatus → Option ℕ → ℕ
renewed_end env now active (some t) = if ltb now t then env.add_month t else env.add_month now
renewed_end env now _ _ = env.add_month now

abbrev pub renew : Env → ℕ → ℕ → Provider → String → Subscription → Subscription
renew env now plan_id provider ref b = record b {
  plan_id = plan_id;
  status = active;
  provider = provider;
  provider_ref = ref;
  ends_at = some (renewed_end env now b.status b.ends_at);
  cancelled_at = none;
}

abbrev pub new_subscription : Env → ℕ → ℕ → ℕ → Provider → String → Subscription
new_subscription env now user_id plan_id provider ref = record {
  user_id = user_id;
  plan_id = plan_id;
  status = active;
  provider = provider;
  provider_ref = ref;
  starts_at = now;
  ends_at = some (env.add_month now);
  cancelled_at = none;
}

abbrev pub is_of_user : ℕ → Subscription → Bool
is_of_user user_id b = b.user_id == user_id

-- INSERT ... ON CONFLICT (user_id) DO UPDATE
unfoldable pub upserted :
    Env → ℕ → ℕ → ℕ → Provider → String → List Subscription → List Subscription
upserted env now user_id plan_id provider ref [] =
    new_subscription env now user_id plan_id provider ref ∷ []
upserted env now user_id plan_id provider ref (b ∷ rest) =
    if is_of_user user_id b
    then renew env now plan_id provider ref b ∷ rest
    else b ∷ upserted env now user_id plan_id provider ref rest

unfoldable pub upsert_active_subscription : Env → ℕ → ℕ → ℕ → Provider → String → Billing Unit
upsert_active_subscription env now user_id plan_id provider ref = call database λ s. (
  ok tt,
  record s { subscriptions = upserted env now user_id plan_id provider ref s.subscriptions },
)

-- UPDATE subscriptions SET status = 'cancelled', cancelled_at = now() WHERE ... status = 'active'
unfoldable pub cancel_subscription : ℕ → ℕ → Billing Unit
cancel_subscription now user_id = call database λ s. (
  ok tt,
  record s {
    subscriptions =
        update (λ b. is_of_user user_id b && is_active b.status)
          (λ b. record b { status = cancelled; cancelled_at = some now }) s.subscriptions;
  },
)

unfoldable pub normalize_plan_name : String → String
normalize_plan_name name =
    if str_eq name "Basic" then "basic" else if str_eq name "Pro" then "pro" else "free"

unfoldable pub scans_per_day_from_limit : ℤ → String → ℤ
scans_per_day_from_limit scan_limit plan =
    if str_eq plan "pro" || not (is_positive scan_limit) then negsuc 0 else scan_limit

abbrev pub free_entitlements : Entitlements
free_entitlements = record {
  has_active_sub = false;
  plan = "free";
  scans_per_day = pos free_scans_per_day;
  expires_at = none;
  days_remaining = 0;
}

abbrev pub ends_after : ℕ → Option ℕ → Bool
ends_after now none = false
ends_after now (some t) = ltb now t

-- WHERE user_id = $1 AND status = 'active' AND ends_at > now()
abbrev pub is_live : ℕ → ℕ → Subscription → Bool
is_live now user_id b = is_of_user user_id b && is_active b.status && ends_after now b.ends_at

abbrev pub days_until : ℕ → Option ℕ → ℕ
days_until now none = 0
days_until now (some t) = (t - now) / 86400

entitlements_of : ℕ → Option ℕ → Plan → Entitlements
unfolding normalize_plan_name scans_per_day_from_limit
entitlements_of now ends_at p =
    let plan = normalize_plan_name p.name in
    record {
      has_active_sub = true;
      plan = plan;
      scans_per_day = scans_per_day_from_limit p.scan_limit plan;
      expires_at = ends_at;
      days_remaining = days_until now ends_at;
    }

of_plan : ℕ → Option ℕ → Option Plan → Entitlements
unfolding entitlements_of
of_plan now ends_at none = free_entitlements
of_plan now ends_at (some p) = entitlements_of now ends_at p

-- the join with `plans` drops a subscription whose plan is gone
joined : ℕ → Store → Option Subscription → Entitlements
unfolding of_plan
joined now s none = free_entitlements
joined now s (some b) = of_plan now b.ends_at (find (λ p. p.id == b.plan_id) s.plans)

-- `user_id` is unique in `subscriptions`, so ORDER BY ends_at DESC LIMIT 1 takes the only row
unfoldable pub entitlements : ℕ → ℕ → Store → Entitlements
unfolding joined
entitlements now user_id s = joined now s (find (is_live now user_id) s.subscriptions)

unfoldable pub get_entitlements : ℕ → ℕ → Billing Entitlements
get_entitlements now user_id = call database λ s. (ok (entitlements now user_id s), s)

abbrev pub has_event_id : String → PaymentEvent → Bool
has_event_id event_id e = str_eq e.provider_event_id event_id

-- SELECT EXISTS(SELECT 1 FROM payment_events WHERE provider_event_id = $1)
unfoldable pub event_exists : String → Billing Bool
event_exists event_id = call database λ s. (ok (any (has_event_id event_id) s.events), s)

abbrev pub new_event : ℕ → String → Provider → String → String → PaymentEvent
new_event id event_id provider event_type payload = record {
  id = id;
  provider_event_id = event_id;
  provider = provider;
  event_type = event_type;
  payload = payload;
  processed = false;
}

-- INSERT INTO payment_events ... under the unique index on provider_event_id
unfoldable pub insert_payment_event : String → Provider → String → String → Billing ℕ
insert_payment_event event_id provider event_type payload = call database λ s.
    if any (has_event_id event_id) s.events then (err unique_violation, s) else (
      ok s.next_id,
      record s {
        events = s.events ++ new_event s.next_id event_id provider event_type payload ∷ [];
        next_id = suc s.next_id;
      },
    )

unfoldable pub mark_payment_event_processed : ℕ → Billing Unit
mark_payment_event_processed id = call database λ s. (
  ok tt,
  record s { events = update (λ e. e.id == id) (λ e. record e { processed = true }) s.events },
)
