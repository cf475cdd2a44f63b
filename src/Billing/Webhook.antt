-- ===== src/Billing/Webhook.antt =====
-- backend/internal/billing/webhook.go: the Razorpay and PayU callbacks. Each handler is the whole
-- method, call by call. Metrics are left out, and the clock is read once for each request.
pub mod Stable
pub mod Guards
use study_mate.Prelude.{
  ℕ, ◌+◌, ◌*◌, String, not, ◌&&◌, ◌||◌, Option, none, some, List, [], ◌∷◌, str_eq, is_blank,
  trim_space, to_lower, if◌then◌else◌,
}
use study_mate.Prelude.Integer.{ℤ, to_nat, is_positive}
use study_mate.Exec.{Result, ok, err, pure, raise, lift, call, attempt, guard, ◌>>=◌, ◌>>◌}
use study_mate.Json.{Fields, get, as_object, as_string, as_string?, as_integer}
use study_mate.Billing.Model.{
  razorpay, payu, is_completed, Plan, Payment, Notice, payment_captured, payment_failed,
  Entitlements, is_development, Env, Error, notify_failed, invalid_webhook_signature,
  secret_required, salt_required, bad_payload, missing_event_id, missing_order_id, missing_txn_id,
  event_already_handled, Billing,
}
use study_mate.Billing.Repository.{
  get_plan_by_id, get_payment_by_provider_order_id, mark_payment_completed, mark_payment_failed,
  upsert_active_subscription, cancel_subscription, get_entitlements, event_exists,
  insert_payment_event, mark_payment_event_processed,
}
use Prim.Native.String.{◌++◌}

-- verifyRazorpaySignature
unfoldable pub verify_razorpay_signature : Env → String → String → Result Error Unit
unfolding is_development
verify_razorpay_signature env payload signature =
    let secret = env.config.razorpay_webhook_secret in
    if str_eq secret ""
    then if is_development env.config then ok tt else err secret_required
    else if is_blank signature
    then err invalid_webhook_signature
    else if str_eq signature (env.hmac_sha256 payload secret)
    then ok tt
    else err invalid_webhook_signature

unfoldable pub decoded : Option Fields → Result Error Fields
decoded none = err bad_payload
decoded (some event) = ok event

-- razorpayEventID
unfoldable pub razorpay_event_id : Fields → String
razorpay_event_id event = as_string (get "id" event)

abbrev first_text : Option String → String → String
first_text none d = d
first_text (some s) d = s

abbrev payment_entity : Fields → Fields
payment_entity event =
    as_object (get "entity" (as_object (get "payment" (as_object (get "payload" event)))))

-- razorpayOrderID: the payment's order, or else the order of the event
unfoldable pub razorpay_order_id : Fields → String
razorpay_order_id event =
    let order = as_object (get "order" (as_object (get "payload" event))) in
    first_text (as_string? (get "order_id" (payment_entity event)))
      (as_string (get "id" (as_object (get "entity" order))))

-- razorpayPaymentID
unfoldable pub razorpay_payment_id : Fields → String
razorpay_payment_id event = as_string (get "id" (payment_entity event))

-- razorpayUserIDFromNotes
unfoldable pub razorpay_user_id_from_notes : Fields → ℤ
razorpay_user_id_from_notes event =
    let sub = as_object (get "subscription" (as_object (get "payload" event))) in
    let notes = as_object (get "notes" (as_object (get "entity" sub))) in
    as_integer (get "user_id" notes)

abbrev pub plan_name : Result Error Plan → String
plan_name (ok p) = p.name
plan_name (err _) = "Premium"

abbrev pub expiry_of : ℕ → Result Error Entitlements → ℕ
expiry_of d (err _) = d
expiry_of d (ok e) = elim e.expires_at [ none ↦ d | some t ↦ t ]

-- a delivery by the notifier, which may refuse
unfoldable pub deliver : Notice → Billing Unit
deliver n = call notify_failed λ s. (ok tt, record s { outbox = n ∷ s.outbox })

-- notifyPaymentCaptured; the default expiry is 30 days ahead
unfoldable pub notify_payment_captured : Env → ℕ → ℕ → ℕ → Billing Unit
notify_payment_captured env now user_id plan_id = if not env.has_notifier then pure tt else do
  plan ← attempt (get_plan_by_id plan_id)
  ent ← attempt (get_entitlements now user_id)
  deliver (payment_captured user_id (plan_name plan) (expiry_of (now + 30 * 24 * 3600) ent))

-- `_ = s.notifier.PaymentFailed(...)`
unfoldable pub notify_payment_failed : Env → ℕ → Billing Unit
notify_payment_failed env user_id =
    if not env.has_notifier
    then pure tt
    else do _ ← attempt (deliver (payment_failed user_id)); pure tt

-- handleRazorpayPaymentCaptured
unfoldable pub handle_razorpay_payment_captured : Env → ℕ → Fields → Billing Unit
handle_razorpay_payment_captured env now event = do
  let order_id = razorpay_order_id event
  let payment_id = razorpay_payment_id event
  guard (not (str_eq order_id "")) missing_order_id
  payment ← get_payment_by_provider_order_id razorpay order_id
  if is_completed payment.status then pure tt else do
    mark_payment_completed payment.id payment_id now
    upsert_active_subscription env now payment.user_id payment.plan_id razorpay payment_id
    notify_payment_captured env now payment.user_id payment.plan_id

-- handleRazorpayPaymentFailed
unfoldable pub handle_razorpay_payment_failed : Env → Fields → Billing Unit
handle_razorpay_payment_failed env event = do
  let order_id = razorpay_order_id event
  guard (not (str_eq order_id "")) missing_order_id
  payment ← get_payment_by_provider_order_id razorpay order_id
  mark_payment_failed payment.id
  notify_payment_failed env payment.user_id

-- handleRazorpaySubscriptionCancelled
unfoldable pub handle_razorpay_subscription_cancelled : ℕ → Fields → Billing Unit
handle_razorpay_subscription_cancelled now event =
    let user_id = razorpay_user_id_from_notes event in
    if not (is_positive user_id) then pure tt else cancel_subscription now (to_nat user_id)

-- the `switch` on the event's type; other types change nothing
unfoldable pub dispatch_razorpay : Env → ℕ → String → Fields → Billing Unit
dispatch_razorpay env now event_type event =
    if str_eq event_type "payment.captured"
    then handle_razorpay_payment_captured env now event
    else if str_eq event_type "payment.failed"
    then handle_razorpay_payment_failed env event
    else if str_eq event_type "subscription.cancelled"
    then handle_razorpay_subscription_cancelled now event
    else pure tt

-- what follows the checks: the event is recorded, acted on and marked
unfoldable pub process_razorpay : Env → ℕ → String → String → Fields → Billing Unit
process_razorpay env now payload id event = do
  exists ← event_exists id
  if exists then raise event_already_handled else do
    let event_type = as_string (get "event" event)
    row ← insert_payment_event id razorpay event_type payload
    dispatch_razorpay env now event_type event
    mark_payment_event_processed row

-- the id in the header, or else the one in the event
abbrev pub event_id_of : String → Fields → String
event_id_of event_id event = if str_eq event_id "" then razorpay_event_id event else event_id

-- HandleRazorpayWebhook
unfoldable pub handle_razorpay_webhook : Env → ℕ → String → String → String → Billing Unit
handle_razorpay_webhook env now payload signature event_id = do
  lift (verify_razorpay_signature env payload signature)
  event ← lift (decoded (env.unmarshal payload))
  let id = event_id_of event_id event
  guard (not (str_eq id "")) missing_event_id
  process_razorpay env now payload id event

-- strings.Join(parts, "|")
unfoldable pub join_bar : List String → String
join_bar [] = ""
join_bar (s ∷ []) = s
join_bar (s ∷ t ∷ rest) = s ++ ("|" ++ join_bar (t ∷ rest))

abbrev text_at : String → Fields → String
text_at k event = as_string (get k event)

-- verifyPayUHash
unfoldable pub verify_payu_hash : Env → Fields → String → Result Error Unit
unfolding is_development join_bar
verify_payu_hash env event received =
    let cfg = env.config in
    let seq = join_bar (
      cfg.payu_salt
      ∷ text_at "status" event
      ∷ ""
      ∷ ""
      ∷ ""
      ∷ ""
      ∷ ""
      ∷ ""
      ∷ ""
      ∷ ""
      ∷ ""
      ∷ ""
      ∷ text_at "udf2" event
      ∷ text_at "udf1" event
      ∷ text_at "email" event
      ∷ text_at "firstname" event
      ∷ text_at "productinfo" event
      ∷ text_at "amount" event
      ∷ text_at "txnid" event
      ∷ cfg.payu_key
      ∷ []) in
    if str_eq cfg.payu_salt ""
    then if is_development cfg then ok tt else err salt_required
    else if str_eq received "" && not (is_development cfg)
    then err invalid_webhook_signature
    else if str_eq received ""
    then ok tt
    else if str_eq (to_lower received) (to_lower (env.sha512_hex seq))
    then ok tt
    else err invalid_webhook_signature

-- `case "success"`
unfoldable pub settle_payu_success : Env → ℕ → Fields → Payment → Billing Unit
settle_payu_success env now event payment = do
  let payment_ref = text_at "mihpayid" event
  mark_payment_completed payment.id payment_ref now
  upsert_active_subscription env now payment.user_id payment.plan_id payu payment_ref
  notify_payment_captured env now payment.user_id payment.plan_id

-- `case "failure", "failed"`
unfoldable pub settle_payu_failure : Env → Payment → Billing Unit
settle_payu_failure env payment = do
  mark_payment_failed payment.id
  notify_payment_failed env payment.user_id

unfoldable pub dispatch_payu : Env → ℕ → String → Fields → Payment → Billing Unit
dispatch_payu env now status event payment =
    let word = to_lower status in
    if str_eq word "success"
    then settle_payu_success env now event payment
    else if str_eq word "failure" || str_eq word "failed"
    then settle_payu_failure env payment
    else pure tt

unfoldable pub process_payu : Env → ℕ → String → String → Fields → Billing Unit
process_payu env now payload txn_id event = do
  exists ← event_exists txn_id
  if exists then raise event_already_handled else do
    let status = text_at "status" event
    row ← insert_payment_event txn_id payu ("payu." ++ status) payload
    payment ← get_payment_by_provider_order_id payu txn_id
    dispatch_payu env now status event payment
    mark_payment_event_processed row

-- HandlePayUWebhook
unfoldable pub handle_payu_webhook : Env → ℕ → String → String → Billing Unit
handle_payu_webhook env now payload received = do
  event ← lift (decoded (env.unmarshal payload))
  lift (verify_payu_hash env event received)
  let txn_id = text_at "txnid" event
  guard (not (str_eq txn_id "")) missing_txn_id
  process_payu env now payload txn_id event

-- paymentEventStatus
unfoldable pub payment_event_status : String → String
payment_event_status raw =
    let word = to_lower (trim_space raw) in
    if str_eq word "payment.captured" || str_eq word "success"
    then "completed"
    else if str_eq word "payment.failed" || str_eq word "failure" || str_eq word "failed"
    then "failed"
    else if str_eq word "subscription.cancelled"
    then "cancelled"
    else if str_eq word ""
    then "unknown"
    else word
