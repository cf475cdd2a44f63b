-- ===== src/Billing/Webhook/Stable.antt =====
-- Invariants of the webhooks, call by call: what each write of the repository keeps, both handlers
-- keep, whatever calls fail.
use study_mate.Prelude.{ℕ, String}
use study_mate.Exec.Keeps.{Keeps, Keeps-call, keeps_rules}
use study_mate.Json.{Fields}
use study_mate.Billing.Model.{Provider, Notice, Payment, Store, Env}
use study_mate.Billing.Repository.{
  get_plan_by_id, get_payment_by_provider_order_id, mark_payment_completed, mark_payment_failed,
  upsert_active_subscription, cancel_subscription, get_entitlements, event_exists,
  insert_payment_event, mark_payment_event_processed,
}
use study_mate.Billing.Webhook.{
  deliver, notify_payment_captured, notify_payment_failed, handle_razorpay_payment_captured,
  handle_razorpay_payment_failed, handle_razorpay_subscription_cancelled, dispatch_razorpay,
  process_razorpay, handle_razorpay_webhook, settle_payu_success, settle_payu_failure,
  dispatch_payu, process_payu, handle_payu_webhook,
}

-- every write that a webhook can make keeps `P`
pub record IsStable (P : Store → Type 0) : Type 0 where
  pub on_complete : (id : ℕ) (ref : String) (at : ℕ) → Keeps P (mark_payment_completed id ref at)
  pub on_fail : (id : ℕ) → Keeps P (mark_payment_failed id)
  pub on_upsert :
      (env : Env) (now user_id plan_id : ℕ) (provider : Provider) (ref : String)
      → Keeps P (upsert_active_subscription env now user_id plan_id provider ref)
  pub on_cancel : (now user_id : ℕ) → Keeps P (cancel_subscription now user_id)
  pub on_insert :
      (id : String) (provider : Provider) (event_type payload : String)
      → Keeps P (insert_payment_event id provider event_type payload)
  pub on_processed : (id : ℕ) → Keeps P (mark_payment_event_processed id)
  pub on_deliver : (n : Notice) → Keeps P (deliver n)

-- a query keeps everything
module _ {P : Store → Type 0} where
  pub event_exists-Keeps : (id : String) → Keeps P (event_exists id)
  unfolding event_exists
  event_exists-Keeps id = Keeps-call _ _ (λ s h. h)

  pub get_plan_by_id-Keeps : (id : ℕ) → Keeps P (get_plan_by_id id)
  unfolding get_plan_by_id
  get_plan_by_id-Keeps id = Keeps-call _ _ (λ s h. h)

  pub get_entitlements-Keeps : (now id : ℕ) → Keeps P (get_entitlements now id)
  unfolding get_entitlements
  get_entitlements-Keeps now id = Keeps-call _ _ (λ s h. h)

  pub get_payment-Keeps :
      (provider : Provider) (order : String)
      → Keeps P (get_payment_by_provider_order_id provider order)
  unfolding get_payment_by_provider_order_id
  get_payment-Keeps provider order = Keeps-call _ _ (λ s h. h)

ruleset queries = (
  keeps_rules, event_exists-Keeps, get_plan_by_id-Keeps, get_entitlements-Keeps, get_payment-Keeps,
)

module _ {P : Store → Type 0} (stable : IsStable P) where
  open stable use {on_complete, on_fail, on_upsert, on_cancel, on_insert, on_processed, on_deliver}

  notify_payment_captured-Keeps :
      (env : Env) (now user_id plan_id : ℕ)
      → Keeps P (notify_payment_captured env now user_id plan_id)
  unfolding notify_payment_captured
  notify_payment_captured-Keeps env now user_id plan_id = search (queries, on_deliver) depth 9

  notify_payment_failed-Keeps :
      (env : Env) (user_id : ℕ) → Keeps P (notify_payment_failed env user_id)
  unfolding notify_payment_failed
  notify_payment_failed-Keeps env user_id = search (queries, on_deliver) depth 9

  captured-Keeps :
      (env : Env) (now : ℕ) (event : Fields)
      → Keeps P (handle_razorpay_payment_captured env now event)
  unfolding handle_razorpay_payment_captured
  captured-Keeps env now event =
      search (queries, on_complete, on_upsert, notify_payment_captured-Keeps) depth 12

  failed-Keeps : (env : Env) (event : Fields) → Keeps P (handle_razorpay_payment_failed env event)
  unfolding handle_razorpay_payment_failed
  failed-Keeps env event = search (queries, on_fail, notify_payment_failed-Keeps) depth 12

  cancelled-Keeps :
      (now : ℕ) (event : Fields) → Keeps P (handle_razorpay_subscription_cancelled now event)
  unfolding handle_razorpay_subscription_cancelled
  cancelled-Keeps now event = search (queries, on_cancel)

  dispatch_razorpay-Keeps :
      (env : Env) (now : ℕ) (event_type : String) (event : Fields)
      → Keeps P (dispatch_razorpay env now event_type event)
  unfolding dispatch_razorpay
  dispatch_razorpay-Keeps env now event_type event =
      search (queries, captured-Keeps, failed-Keeps, cancelled-Keeps) depth 9

  process_razorpay-Keeps :
      (env : Env) (now : ℕ) (payload id : String) (event : Fields)
      → Keeps P (process_razorpay env now payload id event)
  unfolding process_razorpay
  process_razorpay-Keeps env now payload id event =
      search (queries, on_insert, on_processed, dispatch_razorpay-Keeps) depth 12

  pub handle_razorpay_webhook-Keeps :
      (env : Env) (now : ℕ) (payload signature event_id : String)
      → Keeps P (handle_razorpay_webhook env now payload signature event_id)
  unfolding handle_razorpay_webhook
  handle_razorpay_webhook-Keeps env now payload signature event_id =
      search (queries, process_razorpay-Keeps) depth 12

  settle_payu_success-Keeps :
      (env : Env) (now : ℕ) (event : Fields) (p : Payment)
      → Keeps P (settle_payu_success env now event p)
  unfolding settle_payu_success
  settle_payu_success-Keeps env now event p =
      search (queries, on_complete, on_upsert, notify_payment_captured-Keeps) depth 9

  settle_payu_failure-Keeps : (env : Env) (p : Payment) → Keeps P (settle_payu_failure env p)
  unfolding settle_payu_failure
  settle_payu_failure-Keeps env p = search (queries, on_fail, notify_payment_failed-Keeps) depth 9

  dispatch_payu-Keeps :
      (env : Env) (now : ℕ) (status : String) (event : Fields) (p : Payment)
      → Keeps P (dispatch_payu env now status event p)
  unfolding dispatch_payu
  dispatch_payu-Keeps env now status event p =
      search (queries, settle_payu_success-Keeps, settle_payu_failure-Keeps) depth 9

  process_payu-Keeps :
      (env : Env) (now : ℕ) (payload id : String) (event : Fields)
      → Keeps P (process_payu env now payload id event)
  unfolding process_payu
  process_payu-Keeps env now payload id event =
      search (queries, on_insert, on_processed, dispatch_payu-Keeps) depth 12

  pub handle_payu_webhook-Keeps :
      (env : Env) (now : ℕ) (payload received : String)
      → Keeps P (handle_payu_webhook env now payload received)
  unfolding handle_payu_webhook
  handle_payu_webhook-Keeps env now payload received = search (queries, process_payu-Keeps) depth 12
