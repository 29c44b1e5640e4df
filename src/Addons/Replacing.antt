-- ===== src/Addons/Replacing.antt =====
-- What `setFor` of src/addons/addons.service.ts leaves a member with, read as a set of capabilities.
use tutor_app_back.Addons.{can_activate, set_for, has, resolve_for}
use tutor_app_back.Addons.{
  addon_eq, includes, granted, distinct_from, is_grant, grant_all, is_wanted, replace_grants,
}
use tutor_app_back.Addons.{all_addons, held_by}
use tutor_app_back.Prelude.{
  ◌≡◌, refl, ap, ◌∙◌, ◌⊎◌, inl, inr, Bool, true, false, not, ◌&&◌, ◌||◌, none, some, List, [], ◌∷◌,
  ◌++◌, arith, ◌==◌, if◌then◌else◌, Bool-cases, Option-cases, filter, any,
}
use tutor_app_back.Prelude.Table.{Key, lookup}
use tutor_app_back.Model.{
  UserRole, tutor, admin, is_admin, AddonKey, invite_tutors, broadcast_announcements,
  manage_students, UserRow, User, UserAddonRow, Db, Error, member_not_found, admins_hold_all,
  capability_missing, Result, ok, err,
}

addon_eq_sound : (a b : AddonKey) → addon_eq a b ≡ true → a ≡ b
addon_eq_sound invite_tutors invite_tutors h = refl
addon_eq_sound invite_tutors broadcast_announcements h = absurd (cc)
addon_eq_sound invite_tutors manage_students h = absurd (cc)
addon_eq_sound broadcast_announcements invite_tutors h = absurd (cc)
addon_eq_sound broadcast_announcements broadcast_announcements h = refl
addon_eq_sound broadcast_announcements manage_students h = absurd (cc)
addon_eq_sound manage_students invite_tutors h = absurd (cc)
addon_eq_sound manage_students broadcast_announcements h = absurd (cc)
addon_eq_sound manage_students manage_students h = refl

addon_eq_refl : (a : AddonKey) → addon_eq a a ≡ true
addon_eq_refl invite_tutors = refl
addon_eq_refl broadcast_announcements = refl
addon_eq_refl manage_students = refl

addon_eq_sym : (a b : AddonKey) → addon_eq a b ≡ addon_eq b a
addon_eq_sym invite_tutors invite_tutors = refl
addon_eq_sym invite_tutors broadcast_announcements = refl
addon_eq_sym invite_tutors manage_students = refl
addon_eq_sym broadcast_announcements invite_tutors = refl
addon_eq_sym broadcast_announcements broadcast_announcements = refl
addon_eq_sym broadcast_announcements manage_students = refl
addon_eq_sym manage_students invite_tutors = refl
addon_eq_sym manage_students broadcast_announcements = refl
addon_eq_sym manage_students manage_students = refl

-- The abstract view of the grants: whether a user has been given a capability.
abbrev pub may : Key → AddonKey → List UserAddonRow → Bool
may user addon rows = any (is_grant user addon) rows

includes-granted :
    (user : Key) (a : AddonKey) (rows : List UserAddonRow)
    → includes a (granted user rows) ≡ may user a rows
includes-granted user a [] = refl
includes-granted user a (r ∷ rows) =
    ground (arith, includes-granted user a rows, addon_eq_sym a r.addon)

may-append :
    (user : Key) (a : AddonKey) (rows : List UserAddonRow) (r : UserAddonRow)
    → may user a (rows ++ r ∷ []) ≡ (may user a rows || is_grant user a r)
may-append user a [] r = ground arith
may-append user a (q ∷ rows) r = ground (arith, may-append user a rows r)

-- Keeping what fits keeps a match when every match fits alike.
any-filter :
    {A : Type 0} (p q : A → Bool) (c : Bool) (xs : List A)
    → ((x : A) → p x ≡ true → q x ≡ c)
    → any p (filter q xs) ≡ (any p xs && c)
any-filter p q c [] alike = refl
any-filter p q c (x ∷ xs) alike = elim (Bool-cases (p x)) [
  | inl held ↦ ground (arith, held, alike x held, any-filter p q c xs alike)
  | inr free ↦ ground (arith, free, any-filter p q c xs alike)
]

is_wanted_grant :
    (user owner : Key) (a : AddonKey) (wanted : List AddonKey) (r : UserAddonRow)
    → is_grant user a r ≡ true
    → is_wanted owner wanted r ≡ (not (user == owner) || includes a wanted)
is_wanted_grant user owner a wanted r h =
    let same : r.user_id ≡ user = ground (arith, h) in
    let kind : r.addon ≡ a = addon_eq_sound r.addon a (ground (arith, h)) in
    ap (λ k. not (k == owner) || includes r.addon wanted) same
    ∙ ap (λ b. not (user == owner) || includes b wanted) kind

may-filter :
    (user owner : Key) (a : AddonKey) (wanted : List AddonKey) (rows : List UserAddonRow)
    → may user a (filter (is_wanted owner wanted) rows)
      ≡ (may user a rows && (not (user == owner) || includes a wanted))
may-filter user owner a wanted rows =
    any-filter (is_grant user a) (is_wanted owner wanted) (not (user == owner) || includes a wanted)
      rows (is_wanted_grant user owner a wanted)

may-grant_all :
    (user owner by : Key) (a : AddonKey) (wanted : List AddonKey) (rows : List UserAddonRow)
    → may user a (grant_all owner by wanted rows)
      ≡ (may user a rows || (user == owner && includes a wanted))
may-grant_all user owner by a [] rows = ground arith
may-grant_all user owner by a (w ∷ rest) rows = ground (
  arith,
  may-grant_all user owner by a rest (
      if any (is_grant owner w) rows
      then rows
      else rows ++ record { user_id = owner; addon = w; enabled_by_id = by } ∷ []),
  may-append user a rows (record { user_id = owner; addon = w; enabled_by_id = by }),
  addon_eq_sound a w,
  addon_eq_sym a w,
)

includes-append :
    (a b : AddonKey) (held : List AddonKey)
    → includes a (held ++ b ∷ []) ≡ (includes a held || addon_eq a b)
includes-append a b [] = ground arith
includes-append a b (c ∷ held) = ground (arith, includes-append a b held)

includes-distinct_from :
    (a : AddonKey) (acc addons : List AddonKey)
    → includes a (distinct_from acc addons) ≡ (includes a acc || includes a addons)
unfolding distinct_from
includes-distinct_from a acc [] = ground arith
includes-distinct_from a acc (b ∷ rest) = ground (
  arith,
  includes-distinct_from a (if includes b acc then acc else acc ++ b ∷ []) rest,
  includes-append a b acc,
  addon_eq_sound a b,
)

decided : (same m i : Bool) → ((m && (not same || i)) || (same && i)) ≡ (if same then i else m)
decided true true true = refl
decided true true false = refl
decided true false true = refl
decided true false false = refl
decided false true i = refl
decided false false i = refl

may-replace_grants :
    (user owner by : Key) (a : AddonKey) (wanted : List AddonKey) (rows : List UserAddonRow)
    → may user a (replace_grants owner by wanted rows)
      ≡ (if user == owner then includes a wanted else may user a rows)
may-replace_grants user owner by a wanted rows =
    may-grant_all user owner by a wanted (filter (is_wanted owner wanted) rows)
    ∙ ap (λ b. b || (user == owner && includes a wanted)) (may-filter user owner a wanted rows)
    ∙ decided (user == owner) (may user a rows) (includes a wanted)

may-set :
    (by k user : Key) (a : AddonKey) (addons : List AddonKey) (rows : List UserAddonRow)
    → may k a (replace_grants user by (distinct_from [] addons) rows)
      ≡ (if k == user then includes a addons else may k a rows)
may-set by k user a addons rows =
    may-replace_grants k user by a (distinct_from [] addons) rows
    ∙ ap (λ b. if k == user then b else may k a rows) (includes-distinct_from a [] addons)

-- The abstract rule: an admin may do everything, anybody else what they have been given.
abbrev can : User → AddonKey → List UserAddonRow → Bool
can who a rows = is_admin who.role || may who.id a rows

includes-all_addons : (a : AddonKey) → includes a all_addons ≡ true
includes-all_addons invite_tutors = refl
includes-all_addons broadcast_announcements = refl
includes-all_addons manage_students = refl

includes-held_by :
    (role : UserRole) (k : Key) (a : AddonKey) (rows : List UserAddonRow)
    → includes a (held_by role k rows) ≡ (is_admin role || may k a rows)
includes-held_by admin k a rows = includes-all_addons a
includes-held_by tutor k a rows = includes-granted k a rows

abbrev pub answer : Bool → Result Bool
answer true = ok true
answer false = err capability_missing

can_activate_lem :
    (who : User) (a : AddonKey) (db : Db)
    → can_activate (some a) who db ≡ (answer (can who a db.addons), db)
unfolding can_activate has resolve_for
can_activate_lem who a db =
    let held = includes-held_by who.role who.id a db.addons in
    elim (Bool-cases (can who a db.addons)) [
      | inl given ↦ rw (held ∙ given, given) refl
      | inr barred ↦ rw (held ∙ barred, barred) refl
    ]

-- Setting what a member may do: it throws and writes nothing, for a member that is not stored, is of another
-- school or is an admin. Otherwise it answers with the capabilities asked for, and from then on the guard
-- lets the member, unless they are an admin, through exactly those routes, and everybody else through exactly
-- the routes it let them through before.
pub set_for_outcome :
    (caller : User) (user : Key) (addons : List AddonKey) (db : Db)
    → ((e : Error) × (set_for caller user addons db ≡ (err e, db))
        × ((lookup user db.users ≡ none)
            ⊎ ((target : UserRow) × (lookup user db.users ≡ some target)
                × (((target.school_id == caller.school_id) ≡ false)
                    ⊎ (is_admin target.role ≡ true)))))
      ⊎ ((target : UserRow) × (held : List AddonKey) × (d : Db) × (lookup user db.users
            ≡ some target)
          × ((target.school_id == caller.school_id) ≡ true)
          × (is_admin target.role ≡ false)
          × (set_for caller user addons db ≡ (ok held, d))
          × ((a : AddonKey) → includes a held ≡ includes a addons)
          × ((who : User) (a : AddonKey)
              → can_activate (some a) who d ≡ (
                answer (
                    is_admin who.role
                    || (if who.id == user then includes a addons else may who.id a db.addons)),
                d,
              )))
unfolding set_for
set_for_outcome caller user addons db = elim (Option-cases (lookup user db.users)) [
  | inl missing ↦ inl (member_not_found, ground (arith, missing), inl missing)
  | inr (target, found) ↦ elim (Bool-cases (target.school_id == caller.school_id)) [
    | inr away ↦ inl (member_not_found, ground (arith, found, away), inr (target, found, inl away))
    | inl here ↦ elim (Bool-cases (is_admin target.role)) [
      | inl head ↦
          inl (admins_hold_all, ground (arith, found, here, head), inr (target, found, inr head))
      | inr plain ↦
          let held = distinct_from [] addons in
          let rows = replace_grants user caller.id held db.addons in
          inr (
            target,
            held,
            record db { addons = rows },
            found,
            here,
            plain,
            ground (arith, found, here, plain),
            λ a. includes-distinct_from a [] addons,
            λ who a.
                can_activate_lem who a (record db { addons = rows })
                ∙ ap (λ b. (answer (is_admin who.role || b), record db { addons = rows }))
                    (may-set caller.id who.id user a addons db.addons),
          )
    ]
  ]
]
