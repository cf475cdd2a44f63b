-- ===== src/Billing/Webhook/Guards.antt =====
-- Callbacks that must change nothing: forged ones, repeated ones, and PayU's in the form in which
-- backend/internal/billing/handler.go passes them on.
use study_mate.Prelude.{
  ℕ, String, ◌≡◌, ◌≢◌, refl, Bool, false, true, some, List, [], ◌∷◌, any, eq_iff, str_eq, arith,
  inl, inr,
}
use study_mate.Exec.{ok, err, IsError, Result-cases, World, call}
use study_mate.Json.{Fields, get, as_string, form_fields}
use study_mate.Billing.Model.{
  Store, Env, database, event_already_handled, invalid_webhook_signature,
}
use study_mate.Billing.Repository.{has_event_id, event_exists}
use study_mate.Billing.Webhook.{
  verify_razorpay_signature, decoded, event_id_of, process_razorpay, handle_razorpay_webhook,
  verify_payu_hash, handle_payu_webhook,
}

-- A Razorpay callback whose signature is not the digest of its payload under the configured secret
-- is refused before any call is made: the store and the pending failures are as they were.
pub forged_webhook :
    (env : Env) (now : ℕ) (payload signature event_id : String) (w : World Store)
    → env.config.razorpay_webhook_secret ≢ ""
    → signature ≢ env.hmac_sha256 payload env.config.razorpay_webhook_secret
    → handle_razorpay_webhook env now payload signature event_id w
      ≡ (err invalid_webhook_signature, w)
unfolding handle_razorpay_webhook verify_razorpay_signature
forged_webhook env now payload signature event_id w h k = ground (
  arith,
  eq_iff env.config.razorpay_webhook_secret "",
  eq_iff signature (env.hmac_sha256 payload env.config.razorpay_webhook_secret),
)

-- an event that is recorded is refused, or the query for it fails
repeated_at :
    (env : Env) (now : ℕ) (payload id : String) (event : Fields) (s : Store) (fs : List Bool)
    → any (has_event_id id) s.events ≡ true
    → IsError (process_razorpay env now payload id event (record { store = s; faults = fs })).0
      × ((process_razorpay env now payload id event (record { store = s; faults = fs })).1.store
          ≡ s)
unfolding process_razorpay event_exists call
repeated_at env now payload id event s [] h = rw h (tt, refl)
repeated_at env now payload id event s (true ∷ fs) h = (tt, refl)
repeated_at env now payload id event s (false ∷ fs) h = rw h (tt, refl)

pub repeated_event :
    (env : Env) (now : ℕ) (payload id : String) (event : Fields) (w : World Store)
    → any (has_event_id id) w.store.events ≡ true
    → IsError (process_razorpay env now payload id event w).0
      × ((process_razorpay env now payload id event w).1.store ≡ w.store)
repeated_event env now payload id event w = repeated_at env now payload id event w.store w.faults

-- A signed Razorpay callback for an event that is already recorded makes one call, which looks for the
-- event, and ends in the error that says so, whatever calls would fail after it; when that call fails
-- it ends in the database's error. It changes nothing in the store.
pub repeated_webhook :
    (env : Env) (now : ℕ) (payload signature event_id : String) (event : Fields) (s : Store)
    (fs : List Bool)
    → verify_razorpay_signature env payload signature ≡ ok tt
    → env.unmarshal payload ≡ some event
    → str_eq (event_id_of event_id event) "" ≡ false
    → any (has_event_id (event_id_of event_id event)) s.events ≡ true
    → (handle_razorpay_webhook env now payload signature event_id
          (record { store = s; faults = false ∷ fs })
        ≡ (err event_already_handled, record { store = s; faults = fs }))
      × (handle_razorpay_webhook env now payload signature event_id
            (record { store = s; faults = true ∷ fs })
          ≡ (err database, record { store = s; faults = fs }))
unfolding handle_razorpay_webhook decoded process_razorpay event_exists call
repeated_webhook env now payload signature event_id event s fs signed parsed named known =
    (rw (signed, parsed, named, known) refl, rw (signed, parsed, named) refl)

-- every value of a form is a list, so none reads as a text
form_text :
    (k : String) (form : List (String × List String)) → as_string (get k (form_fields form)) ≡ ""
unfolding get form_fields
form_text k [] = refl
form_text k ((j, vs) ∷ rest) = ground (arith, form_text k rest)

-- A PayU callback whose payload decodes to a form, the way HandlePayUWebhook of handler.go encodes
-- one (json.Marshal of a url.Values, whose values are lists), ends in an error and changes nothing,
-- whatever the form says and however it is signed.
pub payu_form_refused :
    (env : Env) (now : ℕ) (payload received : String) (form : List (String × List String))
    (w : World Store)
    → env.unmarshal payload ≡ some (form_fields form)
    → IsError (handle_payu_webhook env now payload received w).0
      × ((handle_payu_webhook env now payload received w).1 ≡ w)
unfolding handle_payu_webhook decoded
payu_form_refused env now payload received form w h =
    rw h (elim (Result-cases (verify_payu_hash env (form_fields form) received)) [
      | inl (a, e) ↦ rw e (rw (form_text "txnid" form) (tt, refl))
      | inr (x, e) ↦ rw e (tt, refl)
    ])
