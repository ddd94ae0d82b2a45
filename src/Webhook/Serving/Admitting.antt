-- ===== src/Webhook/Serving/Admitting.antt =====
-- What the served webhooks let in.
use kopilot.Base.{◌≡◌, refl, ap, ℕ, Option, some, ok, Result-cases, inl, inr, done, lookup, arith}
use kopilot.Webhook.{
  Runtime, patch_from_raw, allowed, new_webhook, inject_decoder, mutate, validate,
}
use kopilot.Webhook.Admission.{IsUuidNonempty, IsRoundTrip, validate-mutate}
use kopilot.Webhook.Serving.{
  WebhookServer, Controller, bind_port, mutator_route, validator_route, registered, call,
  set_up_webhooks,
}

module _ (t : Runtime) (k : Controller t) where
  open t use {World, Raw, AdmissionRequest, raw_object}

  set_up_webhooks-routes :
      (flag : Option ℕ) (w : World) (s : WebhookServer t)
      → (set_up_webhooks t k flag w).0 ≡ ok s
      → s ≡ record { port = bind_port flag; decoder = s.decoder; routes = registered t s.decoder }
  unfolding set_up_webhooks
  set_up_webhooks-routes flag w s e = elim (Result-cases (k.new_manager (bind_port flag) w).0) [
    | inl (d, q) ↦ ground arith
    | inr (er, q) ↦ absurd (ground arith)
  ]

  call-mutator :
      (s : WebhookServer t) (req : AdmissionRequest) (w : World)
      → s.routes ≡ registered t s.decoder
      → call t s "/mutate-v1alpha1-cluster" req w
        ≡ some (mutate t (inject_decoder t s.decoder (new_webhook t)) req w)
  unfolding call registered mutator_route lookup
  call-mutator s req w e = rw (e, call) refl

  call-validator :
      (s : WebhookServer t) (req : AdmissionRequest) (w : World)
      → s.routes ≡ registered t s.decoder
      → validate t (inject_decoder t s.decoder (new_webhook t)) req ≡ done (allowed "")
      → call t s "/validate-v1alpha1-cluster" req w ≡ some (done (allowed "", w))
  unfolding call registered validator_route lookup
  call-validator s req w e valid = rw (e, call) (rw valid refl)

  injected : (d : t.Decoder) → (inject_decoder t d (new_webhook t)).decoder ≡ some d
  unfolding inject_decoder
  injected d = refl

  -- What the program serves, once it is set up: an object that is sent to the path of the mutator,
  -- and as that patches it to the path of the validator, is allowed. UUIDs are not empty, and what
  -- is marshalled decodes to what it was.
  pub call-Admits :
      (flag : Option ℕ) (v w w' : World) (s : WebhookServer t) (req next : AdmissionRequest)
      (old new : Raw)
      → IsUuidNonempty t
      → IsRoundTrip t s.decoder
      → (set_up_webhooks t k flag v).0 ≡ ok s
      → call t s "/mutate-v1alpha1-cluster" req w ≡ some (done (patch_from_raw old new, w'))
      → raw_object next ≡ new
      → call t s "/validate-v1alpha1-cluster" next w' ≡ some (done (allowed "", w'))
  call-Admits flag v w w' s req next old new uuid trips made patched carried =
      let routes = ap (λ (x : WebhookServer t). x.routes) (set_up_webhooks-routes flag v s made) in
      let hook = inject_decoder t s.decoder (new_webhook t) in
      call-validator s next w' routes (
        validate-mutate t hook hook s.decoder req next w w' old new uuid trips (injected s.decoder)
          (injected s.decoder) (cc (call-mutator s req w routes)) carried)
