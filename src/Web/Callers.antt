-- ===== src/Web/Callers.antt =====
-- src/common/guards/throttler-by-caller.guard.ts: whose allowance a request is counted against. What the token library says
-- of a token is a parameter: nothing where it throws, else the subject where there is one.
use mathlib.Core.Path.{subst}
use tutor_app_back.Files.Signatures.{skip}
use tutor_app_back.Prelude.{
  ◌≡◌, refl, sym, ap, ◌∙◌, ◌≢◌, ◌↔◌, ◌⊎◌, inl, inr, true, Option, none, some, [], ◌∷◌, ◌++◌, arith,
  ◌==◌, if◌then◌else◌, Bool-cases, Option-cases, get_or, eq_of_some,
}
use tutor_app_back.Model.Text.{Text, ascii, trim, or_null, starts_with}

pub record Request : Type 0 where
  pub user_id : Option Text
  pub authorization : Option Text
  pub ip : Option Text
  pub remote_address : Option Text

-- A text that counts as true.
abbrev pub truthy : Option Text → Option Text
truthy none = none
truthy (some s) = or_null s

abbrev pub subject_of : Option (Option Text) → Option Text
subject_of none = none
subject_of (some sub) = sub

-- `request.ip ?? request.socket?.remoteAddress ?? 'unknown'`
abbrev pub address_of : Request → Text
address_of r = get_or r.ip (get_or r.remote_address (ascii "unknown"))

-- Nobody has authenticated the request.
abbrev pub NoUser : Request → Type 0
NoUser r = (r.user_id ≡ none) ⊎ (r.user_id ≡ some [])

-- Where the request comes from.
abbrev pub Address : Request → Text → Type 0
Address r x =
    (r.ip ≡ some x)
    ⊎ ((r.ip ≡ none)
        × ((r.remote_address ≡ some x) ⊎ ((r.remote_address ≡ none) × (x ≡ ascii "unknown"))))

truthy_iff : (o : Option Text) (a : Text) → (truthy o ≡ some a) ↔ ((o ≡ some a) × (a ≢ []))
truthy_iff none a = (λ h. absurd (cc), λ (h, _). absurd (cc))
truthy_iff (some []) a = (λ h. absurd (cc), λ (h, named). absurd (named (ground (arith, h))))
truthy_iff (some (c ∷ s)) a = (λ h. (h, λ empty. absurd (ground (arith, h, empty))), λ (h, _). h)

truthy-NoUser : (r : Request) → (truthy r.user_id ≡ none) ↔ NoUser r
truthy-NoUser r = elim (Option-cases (r.user_id)) [
  | inl nobody ↦ (λ h. inl nobody, λ h. ground (arith, nobody))
  | inr ([], empty) ↦ (λ h. inr empty, λ h. ground (arith, empty))
  | inr (c ∷ s, named) ↦ (
    λ h. absurd (ground (arith, h, named)),
    λ h. elim h [
      | inl e ↦ absurd (ground (arith, e, named))
      | inr e ↦ absurd (ground (arith, e, named))
    ],
  )
]

address_of-Address : (r : Request) → Address r (address_of r)
address_of-Address r = elim (Option-cases (r.ip)) [
  | inr (x, there) ↦ inl (ground (arith, there))
  | inl missing ↦ elim (Option-cases (r.remote_address)) [
    | inr (x, there) ↦ inr (missing, inl (ground (arith, there, missing)))
    | inl gone ↦ inr (missing, inr (gone, ground (arith, gone, missing)))
  ]
]

Address-address_of : (r : Request) (x : Text) → Address r x → address_of r ≡ x
Address-address_of r x (inl there) = ground (arith, there)
Address-address_of r x (inr (missing, inl there)) = ground (arith, there, missing)
Address-address_of r x (inr (missing, inr (gone, unknown))) = ground (arith, gone, missing, unknown)

starts_with-split : (p s : Text) → starts_with p s ≡ true → (rest : Text) × (s ≡ p ++ rest)
starts_with-split [] s h = (s, refl)
starts_with-split (c ∷ p) [] h = absurd (cc)
starts_with-split (c ∷ p) (d ∷ s) h = elim (Bool-cases (c == d)) [
  | inr apart ↦ absurd (ground (arith, h, apart))
  | inl same ↦
      let (rest, e) = starts_with-split p s (ground (arith, h, same)) in
      (rest, ground (arith, same, e))
]

module _ (verify : Text → Option (Option Text)) where
  abbrev pub account_of_header : Option Text → Option Text
  account_of_header none = none
  account_of_header (some header) =
      if starts_with (ascii "Bearer ") header
      then subject_of (verify (trim (skip 7 header)))
      else none

  unfoldable pub account_from : Request → Option Text
  account_from r = elim (truthy r.user_id) [
    | some id ↦ some id
    | none ↦ account_of_header r.authorization
  ]

  unfoldable pub get_tracker : Request → Text
  unfolding account_from
  get_tracker r = elim (truthy (account_from r)) [
    | some account ↦ ascii "user:" ++ account
    | none ↦ ascii "ip:" ++ address_of r
  ]

  -- The request names this account: somebody has authenticated it already, or else it carries a bearer token that verifies
  -- and whose subject is the account.
  abbrev pub Account : Request → Text → Type 0
  Account r a =
      (a ≢ [])
      × ((r.user_id ≡ some a)
          ⊎ (NoUser r
              × ((token : Text) × (r.authorization ≡ some (ascii "Bearer " ++ token))
                  × (verify (trim token) ≡ some (some a)))))

  abbrev pub Anonymous : Request → Type 0
  Anonymous r = (a : Text) → ¬ Account r a

  -- Both requests are of one account, or both are of none and from one address.
  abbrev pub OneCaller : Request → Request → Type 0
  OneCaller r s =
      ((a : Text) × Account r a × Account s a)
      ⊎ (Anonymous r × Anonymous s × ((x : Text) × Address r x × Address s x))

  header-Account :
      (r : Request) (a : Text)
      → NoUser r
      → a ≢ []
      → account_of_header r.authorization ≡ some a
      → Account r a
  header-Account r a nobody named h = elim (Option-cases (r.authorization)) [
    | inl missing ↦ absurd (ground (arith, h, missing))
    | inr (header, sent) ↦ elim (Bool-cases (starts_with (ascii "Bearer ") header)) [
      | inr unlike ↦ absurd (ground (arith, h, sent, unlike))
      | inl bearer ↦
          let (token, split) = starts_with-split (ascii "Bearer ") header bearer in
          let sub : subject_of (verify (trim token)) ≡ some a =
            sym (ap account_of_header (sent ∙ ap some split)) ∙ h in
          elim (Option-cases (verify (trim token))) [
            | inl bad ↦ absurd (ground (arith, sub, bad))
            | inr (found, good) ↦
                (named, inr (nobody, (token, sent ∙ ap some split, ground (arith, sub, good))))
          ]
    ]
  ]

  account_from-Account : (r : Request) (a : Text) → truthy (account_from r) ≡ some a → Account r a
  unfolding account_from
  account_from-Account r a h = elim (Option-cases (truthy r.user_id)) [
    | inr (id, set) ↦
        let (stored, named) = (truthy_iff r.user_id id).0 set in
        let kept : truthy (some id) ≡ some id = (truthy_iff (some id) id).1 (refl, named) in
        let e : account_from r ≡ some id = rw (set, account_from) refl in
        let same : id ≡ a = eq_of_some (sym kept ∙ sym (ap truthy e) ∙ h) in
        subst (Account r) same (named, inl stored)
    | inl unset ↦
        let e : account_from r ≡ account_of_header r.authorization =
          rw (unset, account_from) refl in
        let from : truthy (account_of_header r.authorization) ≡ some a = sym (ap truthy e) ∙ h in
        let (read, named) = (truthy_iff (account_of_header r.authorization) a).0 from in
        header-Account r a ((truthy-NoUser r).0 unset) named read
  ]

  Account-account_from : (r : Request) (a : Text) → Account r a → truthy (account_from r) ≡ some a
  unfolding account_from
  Account-account_from r a (named, inl set) =
      let kept : truthy (some a) ≡ some a = (truthy_iff (some a) a).1 (refl, named) in
      let e : account_from r ≡ some a = rw (set, account_from) (rw (kept, account_from) refl) in
      ap truthy e ∙ kept
  Account-account_from r a (named, inr (nobody, (token, sent, good))) =
      let kept : truthy (some a) ≡ some a = (truthy_iff (some a) a).1 (refl, named) in
      let none_set : truthy r.user_id ≡ none = (truthy-NoUser r).1 nobody in
      let read : account_of_header r.authorization ≡ some a =
        ap account_of_header sent ∙ ap subject_of good in
      let e : account_from r ≡ some a = rw (none_set, account_from) read in ap truthy e ∙ kept

  get_tracker-Account : (r : Request) (a : Text) → Account r a → get_tracker r ≡ ascii "user:" ++ a
  unfolding get_tracker
  get_tracker-Account r a of_a = rw (Account-account_from r a of_a, get_tracker) refl

  get_tracker-Address :
      (r : Request) (x : Text) → Anonymous r → Address r x → get_tracker r ≡ ascii "ip:" ++ x
  unfolding get_tracker
  get_tracker-Address r x anonymous from = elim (Option-cases (truthy (account_from r))) [
    | inr (a, named) ↦ absurd (anonymous a (account_from-Account r a named))
    | inl unnamed ↦
        let e : get_tracker r ≡ ascii "ip:" ++ address_of r = rw (unnamed, get_tracker) refl in
        e ∙ ap (λ y. ascii "ip:" ++ y) (Address-address_of r x from)
  ]

  -- Every request is of an account or of none.
  Account-cases : (r : Request) → ((a : Text) × Account r a) ⊎ Anonymous r
  Account-cases r = elim (Option-cases (truthy (account_from r))) [
    | inr (a, named) ↦ inl (a, account_from-Account r a named)
    | inl unnamed ↦ inr (λ a of_a. ground (arith, unnamed, Account-account_from r a of_a))
  ]

  same_account : (a b : Text) → ascii "user:" ++ a ≡ ascii "user:" ++ b → a ≡ b
  same_account a b h = ground (arith, h)

  same_address : (a b : Text) → ascii "ip:" ++ a ≡ ascii "ip:" ++ b → a ≡ b
  same_address a b h = ground (arith, h)

  kinds_differ : (a b : Text) → ¬ (ascii "user:" ++ a ≡ ascii "ip:" ++ b)
  kinds_differ a b h = ground (arith, h)

  trackers-OneCaller : (r s : Request) → get_tracker r ≡ get_tracker s → OneCaller r s
  trackers-OneCaller r s h =
      let at_r : Anonymous r → get_tracker r ≡ ascii "ip:" ++ address_of r =
        λ none_r. get_tracker-Address r (address_of r) none_r (address_of-Address r) in
      let at_s : Anonymous s → get_tracker s ≡ ascii "ip:" ++ address_of s =
        λ none_s. get_tracker-Address s (address_of s) none_s (address_of-Address s) in
      elim (Account-cases r) [
        | inl (a, of_a) ↦ elim (Account-cases s) [
          | inl (b, of_b) ↦
              let same =
                same_account a b
                  (sym (get_tracker-Account r a of_a) ∙ h ∙ get_tracker-Account s b of_b) in
              inl (a, of_a, subst (Account s) (sym same) of_b)
          | inr none_s ↦
              absurd (
                kinds_differ a (address_of s)
                  (sym (get_tracker-Account r a of_a) ∙ h ∙ at_s none_s))
        ]
        | inr none_r ↦ elim (Account-cases s) [
          | inl (b, of_b) ↦ absurd (
              kinds_differ b (address_of r)
                (sym (get_tracker-Account s b of_b) ∙ sym h ∙ at_r none_r))
          | inr none_s ↦
              let same =
                same_address (address_of r) (address_of s) (sym (at_r none_r) ∙ h ∙ at_s none_s) in
              inr (
                none_r,
                none_s,
                (
                  address_of r,
                  address_of-Address r,
                  subst (Address s) (sym same) (address_of-Address s),
                ),
              )
        ]
      ]

  OneCaller-trackers : (r s : Request) → OneCaller r s → get_tracker r ≡ get_tracker s
  OneCaller-trackers r s (inl (a, of_r, of_s)) =
      get_tracker-Account r a of_r ∙ sym (get_tracker-Account s a of_s)
  OneCaller-trackers r s (inr (none_r, none_s, (x, at_r, at_s))) =
      get_tracker-Address r x none_r at_r ∙ sym (get_tracker-Address s x none_s at_s)

  -- Two requests are counted together exactly when both are of one account, or both are of no account and from one
  -- address: no address spends the allowance of an account. An account is the id of the user that the request has
  -- already, or else the subject of a bearer token that verifies; an address is the `ip` of the request, or else its
  -- remote address, or else the word `unknown`.
  pub trackers_agree_iff : (r s : Request) → (get_tracker r ≡ get_tracker s) ↔ OneCaller r s
  trackers_agree_iff r s = (trackers-OneCaller r s, OneCaller-trackers r s)
