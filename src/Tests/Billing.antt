-- ===== src/Tests/Billing.antt =====
-- Billing on one user with one order.
use study_mate.Prelude.{
  is_blank, ℕ, ◌+◌, ◌*◌, ◌/◌, ◌≡◌, ◌≢◌, ◌<◌, refl, String, true, false, some, none, List, [], ◌∷◌,
  arith, eq_iff, str_eq, find, if◌then◌else◌,
}
use study_mate.Prelude.Integer.{pos}
use study_mate.Exec.{ok, err, IsError, World}
use study_mate.Json.{Fields, get, end, field, str, obj, form_fields}
use study_mate.Billing.Model.{
  event_already_handled, database, razorpay, PaymentStatus, pending, failed, active, Plan, Payment,
  Subscription, Store, Config, Env, invalid_webhook_signature, database, scan_limit_exceeded,
}
use study_mate.Billing.Repository.{is_order, entitlements, complete}
use study_mate.Billing.Webhook.{
  verify_razorpay_signature, razorpay_order_id, razorpay_payment_id, process_razorpay,
  handle_razorpay_webhook, handle_payu_webhook,
}
use study_mate.Billing.Webhook.Guards.{forged_webhook, repeated_webhook, payu_form_refused}
use study_mate.Billing.Ledger.{
  Callback, razorpay_callback, payu_callback, receive, Advances, receive-payments_advance,
}
use study_mate.Billing.Capture.{recorded, interrupted_capture, extended_end}
use study_mate.Billing.Capture.Granted.{captured_grants, captured_after_failure}
use study_mate.Billing.Limiter.{check_scan_limit, daily_limit}
use study_mate.Billing.Quota.{record_scans, quota_exact}

abbrev entity : Fields
entity = field "order_id" (str "o1") (field "id" (str "pay1") end)

abbrev captured : Fields
captured = field "id" (str "ev1") (
    field "event" (str "payment.captured")
      (field "payload" (obj (field "payment" (obj (field "entity" (obj entity) end)) end)) end))

abbrev form : List (String × List String)
form = ("txnid", "t1" ∷ []) ∷ ("status", "success" ∷ []) ∷ []

abbrev config : Config
config = record {
  razorpay_key_id = "key";
  razorpay_key_secret = "s";
  razorpay_webhook_secret = "hook";
  payu_key = "k";
  payu_salt = "";
  payu_webhook_url = "";
  environment = "development";
}

-- the digest of a payload is its secret; a month has 30 days of 86400 seconds
abbrev env : Env
env = record {
  config = config;
  has_notifier = true;
  has_cache = true;
  hmac_sha256 = λ p k. k;
  sha512_hex = λ s. s;
  unmarshal = λ s. if str_eq s "form" then some (form_fields form) else some captured;
  add_month = λ t. t + 2592000;
  day_of = λ t. t / 86400;
  end_of_day = λ t. t / 86400 * 86400 + 86399;
}

abbrev pro : Plan
pro = record {
  id = 1;
  slug = "plan_basic_monthly";
  name = "Basic";
  price_paise = 19900;
  currency = "INR";
  scan_limit = pos 2;
  is_offered = true;
}

abbrev order : PaymentStatus → Payment
order st = record {
  id = 10;
  user_id = 7;
  plan_id = 1;
  provider = razorpay;
  provider_order_id = "o1";
  amount_paise = 19900;
  currency = "INR";
  status = st;
  provider_payment_id = none;
  paid_at = none;
  transaction_id = some "o1";
}

abbrev subscribed : Subscription
subscribed = record {
  user_id = 7;
  plan_id = 1;
  status = active;
  provider = razorpay;
  provider_ref = "old";
  starts_at = 0;
  ends_at = some 5000;
  cancelled_at = none;
}

abbrev shop : PaymentStatus → Store
shop st = record {
  plans = pro ∷ [];
  users = [];
  payments = order st ∷ [];
  subscriptions = subscribed ∷ [];
  events = [];
  counters = [];
  outbox = [];
  next_id = 20;
}

abbrev calm : Store → World Store
calm s = record { store = s; faults = [] }

not_empty : ◌≢◌ {A = String} "hook" ""
not_empty = ground (arith, eq_iff "hook" "")

order_not_empty : razorpay_order_id captured ≢ ""
unfolding razorpay_order_id get
order_not_empty = ground (arith, eq_iff "o1" "")

forged_webhook_example :
    handle_razorpay_webhook env 1000 "{}" "guess" "ev1" (calm (shop pending))
    ≡ (err invalid_webhook_signature, calm (shop pending))
forged_webhook_example =
    forged_webhook env 1000 "{}" "guess" "ev1" (calm (shop pending)) not_empty
      (ground (arith, eq_iff "guess" "hook"))

abbrev seen : Store
seen = recorded "{}" "ev1" captured (shop pending)

hook_signed : verify_razorpay_signature env "{}" "hook" ≡ ok tt
unfolding verify_razorpay_signature is_blank
hook_signed = refl

repeated_webhook_example :
    (handle_razorpay_webhook env 1000 "{}" "hook" "ev1"
        (record { store = seen; faults = false ∷ true ∷ [] })
      ≡ (err event_already_handled, record { store = seen; faults = true ∷ [] }))
    × (handle_razorpay_webhook env 1000 "{}" "hook" "ev1"
          (record { store = seen; faults = true ∷ true ∷ [] })
        ≡ (err database, record { store = seen; faults = true ∷ [] }))
repeated_webhook_example =
    repeated_webhook env 1000 "{}" "hook" "ev1" captured seen (true ∷ []) hook_signed refl refl refl

payu_form_refused_example :
    IsError (handle_payu_webhook env 1000 "form" "" (calm (shop pending))).0
    × ((handle_payu_webhook env 1000 "form" "" (calm (shop pending))).1 ≡ calm (shop pending))
payu_form_refused_example = payu_form_refused env 1000 "form" "" form (calm (shop pending)) refl

abbrev callbacks : List Callback
callbacks =
    razorpay_callback 1000 "{}" "hook" "ev1"
    ∷ razorpay_callback 1001 "{}" "hook" "ev1"
    ∷ payu_callback 1002 "form" ""
    ∷ []

receive-payments_advance_example :
    Advances (shop pending).payments (receive env (calm (shop pending)) callbacks).store.payments
receive-payments_advance_example = receive-payments_advance env (calm (shop pending)) callbacks

interrupted_capture_example :
    (process_razorpay env 1000 "{}" "ev1" captured
        (record { store = shop pending; faults = false ∷ false ∷ true ∷ [] })
      ≡ (err database, calm seen))
    × IsError (process_razorpay env 2000 "{}" "ev1" captured (calm seen)).0
    × ((process_razorpay env 2000 "{}" "ev1" captured (calm seen)).1.store ≡ seen)
unfolding get
interrupted_capture_example =
    interrupted_capture env 1000 2000 "{}" "ev1" captured (shop pending) [] [] refl refl
      order_not_empty

month_grows : (t : ℕ) → t < env.add_month t
month_grows t = omega arith

captured_grants_example :
    let r = process_razorpay env 1000 "{}" "ev1" captured (calm (shop pending)) in
    let ent = entitlements 1000 7 r.1.store in
    (r.0 ≡ ok tt)
    × (find (is_order razorpay (razorpay_order_id captured)) r.1.store.payments
        ≡ some (complete (razorpay_payment_id captured) 1000 (order pending)))
    × (ent.has_active_sub ≡ true)
    × (ent.expires_at ≡ some (extended_end env 1000 (some subscribed)))
unfolding razorpay_order_id get
captured_grants_example =
    captured_grants env 1000 "{}" "ev1" captured (shop pending) (order pending) pro refl refl
      order_not_empty refl refl refl month_grows

captured_after_failure_example :
    let r = process_razorpay env 1000 "{}" "ev1" captured (calm (shop failed)) in
    let ent = entitlements 1000 7 r.1.store in
    (r.0 ≡ ok tt)
    × (find (is_order razorpay (razorpay_order_id captured)) r.1.store.payments
        ≡ some (order failed))
    × (ent.has_active_sub ≡ true)
    × (ent.expires_at ≡ some (extended_end env 1000 (some subscribed)))
unfolding razorpay_order_id get
captured_after_failure_example =
    captured_after_failure env 1000 "{}" "ev1" captured (shop failed) (order failed) pro refl refl
      order_not_empty refl refl refl month_grows

-- two scans are on the plan, so the third is refused
quota_exact_example :
    (check_scan_limit env 300 7 (record_scans env 7 (100 ∷ 200 ∷ []) (calm (shop pending)))).0
    ≡ err scan_limit_exceeded
unfolding entitlements daily_limit
quota_exact_example =
    quota_exact env 7 300 (shop pending) (100 ∷ 200 ∷ []) refl refl refl
      (
        record { date = refl; expiry = refl; early = omega arith },
        (record { date = refl; expiry = refl; early = omega arith }, tt),
      )
      (omega arith)
