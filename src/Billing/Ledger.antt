-- ===== src/Billing/Ledger.antt =====
-- What the webhooks may do to the table of payments, over every sequence of callbacks.
use study_mate.Prelude.{ℕ, ◌≡◌, ◌≢◌, refl, String, List, [], ◌∷◌, update, arith, if◌then◌else◌}
use study_mate.Exec.{World}
use study_mate.Exec.Keeps.{Keeps-call}
use study_mate.Billing.Model.{pending, Payment, Store, Env}
use study_mate.Billing.Repository.{
  mark_payment_completed, mark_payment_failed, upsert_active_subscription, cancel_subscription,
  insert_payment_event, mark_payment_event_processed, is_pending_row, complete, fail,
}
use study_mate.Billing.Webhook.{deliver, handle_razorpay_webhook, handle_payu_webhook}
use study_mate.Billing.Webhook.Stable.{
  IsStable, handle_razorpay_webhook-Keeps, handle_payu_webhook-Keeps,
}

-- what a payment is for
pub record SameOrder (p q : Payment) : Type 0 where
  pub id : q.id ≡ p.id
  pub user_id : q.user_id ≡ p.user_id
  pub plan_id : q.plan_id ≡ p.plan_id
  pub provider : q.provider ≡ p.provider
  pub provider_order_id : q.provider_order_id ≡ p.provider_order_id
  pub amount_paise : q.amount_paise ≡ p.amount_paise
  pub currency : q.currency ≡ p.currency

-- `q` is what `p` has become: the same order, and unchanged once it is not pending
pub record Later (p q : Payment) : Type 0 where
  pub same : SameOrder p q
  pub frozen : p.status ≢ pending → q ≡ p

-- row by row, nothing added or removed
abbrev pub Advances : List Payment → List Payment → Type 0
Advances [] [] = Unit
Advances [] (q ∷ qs) = ⊥
Advances (p ∷ ps) [] = ⊥
Advances (p ∷ ps) (q ∷ qs) = Later p q × Advances ps qs

SameOrder-refl : (p : Payment) → SameOrder p p
SameOrder-refl p = record {
  id = refl;
  user_id = refl;
  plan_id = refl;
  provider = refl;
  provider_order_id = refl;
  amount_paise = refl;
  currency = refl;
}

Later-refl : (p : Payment) → Later p p
Later-refl p = record { same = SameOrder-refl p; frozen = λ _. refl }

pub Advances-refl : (ps : List Payment) → Advances ps ps
Advances-refl [] = tt
Advances-refl (p ∷ ps) = (Later-refl p, Advances-refl ps)

complete_row :
    (id : ℕ) (ref : String) (at : ℕ) (p q : Payment)
    → Later p q
    → Later p (if is_pending_row id q then complete ref at q else q)
complete_row id ref at p q l = ground arith

fail_row :
    (id : ℕ) (p q : Payment) → Later p q → Later p (if is_pending_row id q then fail q else q)
fail_row id p q l = ground arith

Advances-complete :
    (id : ℕ) (ref : String) (at : ℕ) (ps qs : List Payment)
    → Advances ps qs
    → Advances ps (update (is_pending_row id) (complete ref at) qs)
Advances-complete id ref at [] [] a = tt
Advances-complete id ref at [] (q ∷ qs) a = a
Advances-complete id ref at (p ∷ ps) [] a = a
Advances-complete id ref at (p ∷ ps) (q ∷ qs) a =
    (complete_row id ref at p q a.0, Advances-complete id ref at ps qs a.1)

Advances-fail :
    (id : ℕ) (ps qs : List Payment)
    → Advances ps qs
    → Advances ps (update (is_pending_row id) fail qs)
Advances-fail id [] [] a = tt
Advances-fail id [] (q ∷ qs) a = a
Advances-fail id (p ∷ ps) [] a = a
Advances-fail id (p ∷ ps) (q ∷ qs) a = (fail_row id p q a.0, Advances-fail id ps qs a.1)

abbrev FromRows : List Payment → Store → Type 0
FromRows ps s = Advances ps s.payments

FromRows-stable : (ps : List Payment) → IsStable (FromRows ps)
unfolding mark_payment_completed mark_payment_failed upsert_active_subscription cancel_subscription
    insert_payment_event mark_payment_event_processed deliver
FromRows-stable ps = record {
  on_complete = λ id ref at. Keeps-call _ _ (λ s h. Advances-complete id ref at ps s.payments h);
  on_fail = λ id. Keeps-call _ _ (λ s h. Advances-fail id ps s.payments h);
  on_upsert = λ env now user_id plan_id provider ref. Keeps-call _ _ (λ s h. h);
  on_cancel = λ now user_id. Keeps-call _ _ (λ s h. h);
  on_insert = λ id provider event_type payload. Keeps-call _ _ (λ s h. ground (arith, h));
  on_processed = λ id. Keeps-call _ _ (λ s h. h);
  on_deliver = λ n. Keeps-call _ _ (λ s h. h);
}

-- a callback as it arrives, with the instant at which it does
pub data Callback : Type 0 where
  razorpay_callback : ℕ → String → String → String → Callback
  payu_callback : ℕ → String → String → Callback

-- handleRazorpayWebhook and handlePayUWebhook, one after the other; errors end their own request
unfoldable pub receive : Env → World Store → List Callback → World Store
receive env w [] = w
receive env w (razorpay_callback now payload signature id ∷ rest) =
    receive env (handle_razorpay_webhook env now payload signature id w).1 rest
receive env w (payu_callback now payload received ∷ rest) =
    receive env (handle_payu_webhook env now payload received w).1 rest

pub receive-stable :
    {P : Store → Type 0} (stable : IsStable P) (env : Env) (w : World Store) (cs : List Callback)
    → P w.store
    → P (receive env w cs).store
unfolding receive
receive-stable stable env w [] h = h
receive-stable stable env w (razorpay_callback now payload signature id ∷ rest) h =
    receive-stable stable env (handle_razorpay_webhook env now payload signature id w).1 rest
      ((handle_razorpay_webhook-Keeps stable env now payload signature id).at w h)
receive-stable stable env w (payu_callback now payload received ∷ rest) h =
    receive-stable stable env (handle_payu_webhook env now payload received w).1 rest
      ((handle_payu_webhook-Keeps stable env now payload received).at w h)

-- Whatever callbacks arrive, genuine, forged or repeated, and whatever calls fail, every payment
-- keeps its row and its order, and a payment that is completed or failed is never written again.
pub receive-payments_advance :
    (env : Env) (w : World Store) (cs : List Callback)
    → Advances w.store.payments (receive env w cs).store.payments
receive-payments_advance env w cs =
    receive-stable (FromRows-stable w.store.payments) env w cs (Advances-refl w.store.payments)
