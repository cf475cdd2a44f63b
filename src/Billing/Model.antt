-- ===== src/Billing/Model.antt =====
-- backend/internal/billing/model.go and config.go, the columns of the tables that repository.go
-- reads and writes, and what the service gets from outside.
use study_mate.Prelude.{ℕ, String, Bool, true, false, ◌||◌, Option, List, str_eq}
use study_mate.Prelude.Integer.{ℤ}
use study_mate.Exec.{Act}
use study_mate.Json.{Fields}

-- the CHECK constraint of the `provider` columns allows these two
pub data Provider : Type 0 where
  razorpay payu : Provider

pub data PaymentStatus : Type 0 where
  pending completed failed : PaymentStatus

pub data SubStatus : Type 0 where
  active cancelled inactive : SubStatus

abbrev pub same_provider : Provider → Provider → Bool
same_provider razorpay razorpay = true
same_provider payu payu = true
same_provider _ _ = false

abbrev pub is_pending : PaymentStatus → Bool
is_pending pending = true
is_pending _ = false

abbrev pub is_completed : PaymentStatus → Bool
is_completed completed = true
is_completed _ = false

abbrev pub is_active : SubStatus → Bool
is_active active = true
is_active _ = false

pub record Plan : Type 0 where
  pub id : ℕ
  pub slug : String
  pub name : String
  pub price_paise : ℕ
  pub currency : String
  pub scan_limit : ℤ
  pub is_offered : Bool  -- the column `active`

pub record UserProfile : Type 0 where
  pub id : ℕ
  pub name : String
  pub email : String

pub record Payment : Type 0 where
  pub id : ℕ
  pub user_id : ℕ
  pub plan_id : ℕ
  pub provider : Provider
  pub provider_order_id : String
  pub amount_paise : ℕ
  pub currency : String
  pub status : PaymentStatus
  pub provider_payment_id : Option String
  pub paid_at : Option ℕ
  pub transaction_id : Option String

pub record Subscription : Type 0 where
  pub user_id : ℕ
  pub plan_id : ℕ
  pub status : SubStatus
  pub provider : Provider
  pub provider_ref : String
  pub starts_at : ℕ
  pub ends_at : Option ℕ
  pub cancelled_at : Option ℕ

pub record PaymentEvent : Type 0 where
  pub id : ℕ
  pub provider_event_id : String
  pub provider : Provider
  pub event_type : String
  pub payload : String
  pub processed : Bool

-- a counter in Valkey, with the instant at which it expires
pub record Counter : Type 0 where
  pub user_id : ℕ
  pub day : ℕ
  pub count : ℕ
  pub expires : ℕ

pub data Notice : Type 0 where
  payment_captured : ℕ → String → ℕ → Notice
  payment_failed : ℕ → Notice

pub record Entitlements : Type 0 where
  pub has_active_sub : Bool
  pub plan : String
  pub scans_per_day : ℤ
  pub expires_at : Option ℕ
  pub days_remaining : ℕ

pub record Store : Type 0 where
  pub plans : List Plan
  pub users : List UserProfile
  pub payments : List Payment
  pub subscriptions : List Subscription
  pub events : List PaymentEvent
  pub counters : List Counter
  pub outbox : List Notice
  pub next_id : ℕ  -- the next value of the id sequences

pub record Config : Type 0 where
  pub razorpay_key_id : String
  pub razorpay_key_secret : String
  pub razorpay_webhook_secret : String
  pub payu_key : String
  pub payu_salt : String
  pub payu_webhook_url : String
  pub environment : String

unfoldable pub is_development : Config → Bool
is_development c = str_eq c.environment "" || str_eq c.environment "development"

-- what the service takes from elsewhere: its configuration, whether a notifier is wired, the
-- digests, the JSON decoder, and the calendar
pub record Env : Type 0 where
  pub config : Config
  pub has_notifier : Bool
  pub has_cache : Bool
  pub hmac_sha256 : String → String → String
  pub sha512_hex : String → String
  pub unmarshal : String → Option Fields
  pub add_month : ℕ → ℕ  -- t + interval '1 month'
  pub day_of : ℕ → ℕ  -- the local date of an instant, as a number
  pub end_of_day : ℕ → ℕ

pub data Error : Type 0 where
  database notify_failed : Error
  invalid_webhook_signature secret_required salt_required bad_payload : Error
  missing_event_id missing_order_id missing_txn_id : Error
  event_already_handled unique_violation : Error
  payment_not_found plan_not_found user_not_found : Error
  not_development order_id_required not_a_dev_order not_order_owner : Error
  scan_limit_exceeded unsupported_provider gateway_refused payu_keys_required : Error

abbrev pub free_scans_per_day : ℕ
free_scans_per_day = 5

-- a request of the billing service
abbrev pub Billing : Type 0 → Type 0
Billing A = Act Store Error A
