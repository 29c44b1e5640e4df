-- ===== src/Push/Delivery.antt =====
-- The loop of `send` of src/push/push.service.ts, which goes through its messages in slices.
use mathlib.Core.List.{append-nil, append_assoc}
use tutor_app_back.Push.{send_as, send_through}
use tutor_app_back.Push.{send, authenticate, PushTransport, log, fcm, PushConfig, PushState}
use tutor_app_back.Push.Credentials.{ServiceAccount, ServiceAccountFields, TokenAnswer}
use tutor_app_back.Push.{PushMessage, send_one, retired_among, FcmMessage, FcmResponse}
use tutor_app_back.Push.{concurrency, send_slices}
use tutor_app_back.Prelude.{
  ℕ, zero, suc, ◌+◌, ◌*◌, ◌≤◌, ◌≡◌, refl, sym, ap, ◌∙◌, ◌⊎◌, inl, inr, false, Option, none, some,
  List, [], ◌∷◌, ◌++◌, arith, ltb, Bool-cases, Option-cases, length, take, skip, skip-skip,
  skip-all, take-skip,
}
use tutor_app_back.Prelude.Int.{ℤ}
use tutor_app_back.Model.Text.{Text}

module _ (fetch : Text → Text → FcmMessage → Option FcmResponse) (project token : Text) where
  retired_among-append :
      (xs ys : List PushMessage)
      → retired_among fetch project token (xs ++ ys)
        ≡ retired_among fetch project token xs ++ retired_among fetch project token ys
  retired_among-append [] ys = refl
  retired_among-append (m ∷ xs) ys = elim (Option-cases (send_one fetch project token m)) [
    | inl kept ↦ rw (kept, retired_among) (retired_among-append xs ys)
    | inr (t, dead) ↦ rw (dead, retired_among) (ap (λ ts. t ∷ ts) (retired_among-append xs ys))
  ]

  -- A slice of the messages and those behind it.
  retired_among-skip :
      (n index : ℕ) (ms : List PushMessage)
      → retired_among fetch project token (take n (skip index ms))
          ++ retired_among fetch project token (skip (index + n) ms)
        ≡ retired_among fetch project token (skip index ms)
  retired_among-skip n index ms =
      ap
        (λ ys.
          retired_among fetch project token (take n (skip index ms))
          ++ retired_among fetch project token ys)
        (sym (skip-skip index n ms))
      ∙ sym (retired_among-append (take n (skip index ms)) (skip n (skip index ms)))
      ∙ ap (retired_among fetch project token) (take-skip n (skip index ms))

  -- Behind the last message nothing is added.
  retired_among-done :
      (ms : List PushMessage) (index : ℕ) (retired : List Text)
      → length ms ≤ index
      → retired ++ retired_among fetch project token (skip index ms) ≡ retired
  retired_among-done ms index retired h =
      ap (λ ys. retired ++ retired_among fetch project token ys) (skip-all index ms h)
      ∙ append-nil retired

  ltb-beyond : (a b : ℕ) → b ≤ a → ltb a b ≡ false
  ltb-beyond a b h = ground (arith, h)

  not_ltb : (a b : ℕ) → ltb a b ≡ false → b ≤ a
  not_ltb a b h = ground (arith, h)

  -- With fuel for the messages that are left, the loop returns, with the tokens it had and those of the rest.
  send_slices_lem :
      (ms : List PushMessage) (fuel index : ℕ) (retired : List Text)
      → length ms ≤ index + concurrency * fuel
      → send_slices fetch project token ms fuel index retired
        ≡ some (retired ++ retired_among fetch project token (skip index ms))
  unfolding send_slices
  send_slices_lem ms zero index retired h =
      rw
        (
          ltb-beyond index (length ms) (omega (arith, h)),
          retired_among-done ms index retired (omega (arith, h)),
        )
        refl
  send_slices_lem ms (suc fuel) index retired h = elim (Bool-cases (ltb index (length ms))) [
    | inl more ↦
        let now = retired_among fetch project token (take concurrency (skip index ms)) in
        rw (more) (
          send_slices_lem ms fuel (index + concurrency) (retired ++ now) (omega (arith, h))
          ∙ ap some (
              append_assoc retired now
                (retired_among fetch project token (skip (index + concurrency) ms))
              ∙ ap (λ ts. retired ++ ts) (retired_among-skip concurrency index ms)))
    | inr enough ↦
        rw (enough, retired_among-done ms index retired (not_ltb index (length ms) enough)) refl
  ]

module _ (fetch : Text → Text → FcmMessage → Option FcmResponse)
    (parse : Text → Option ServiceAccountFields) (issue : ServiceAccount → ℤ → Option TokenAnswer)
    (c : PushConfig) where
  -- What a send of some messages retires, without slices: nothing where messages are logged, where there are
  -- none or where the service cannot authenticate, and else the tokens that FCM called dead, in order.
  abbrev pub retired_by : Option (Text × Text) → List PushMessage → List Text
  retired_by none ms = []
  retired_by (some (project, token)) ms = retired_among fetch project token ms

  send_as_lem :
      (access : Option (Text × Text)) (ms : List PushMessage) (st : PushState)
      → send_as fetch parse issue c access ms st ≡ (some (retired_by access ms), st)
  unfolding send_as
  send_as_lem none ms st = refl
  send_as_lem (some (project, token)) ms st =
      ap (λ r. (r, st)) (send_slices_lem fetch project token ms (length ms) 0 [] (omega arith))

  send_through_lem :
      (t : PushTransport) (now : ℤ) (ms : List PushMessage) (st : PushState)
      → ((t ≡ log) × (send_through fetch parse issue c t now ms st ≡ (some [], st)))
        ⊎ ((t ≡ fcm)
            × (send_through fetch parse issue c t now ms st ≡ (
              some (retired_by ((authenticate fetch parse issue c now st).0) ms),
              (authenticate fetch parse issue c now st).1,
            )))
  unfolding send_through
  send_through_lem log now ms st = inl (refl, refl)
  send_through_lem fcm now ms st = inr (
    refl,
    send_as_lem ((authenticate fetch parse issue c now st).0) ms
        ((authenticate fetch parse issue c now st).1),
  )

  -- A send always returns, whatever FCM answers: without messages or where they are logged it retires
  -- nothing and leaves its credentials, and else it has authenticated and retires exactly the tokens that
  -- FCM called dead, in the order of the messages, or none where it could not authenticate.
  pub send_returns :
      (now : ℤ) (ms : List PushMessage) (st : PushState)
      → (((ms ≡ []) ⊎ (c.transport ≡ log)) × (send fetch parse issue c now ms st ≡ (some [], st)))
        ⊎ ((c.transport ≡ fcm)
            × (send fetch parse issue c now ms st ≡ (
              some (retired_by ((authenticate fetch parse issue c now st).0) ms),
              (authenticate fetch parse issue c now st).1,
            )))
  unfolding send
  send_returns now [] st = inl (inl refl, refl)
  send_returns now (m ∷ ms) st = elim (send_through_lem c.transport now (m ∷ ms) st) [
    | inl (logs, sent) ↦ inl (inr logs, sent)
    | inr (sends, sent) ↦ inr (sends, sent)
  ]
