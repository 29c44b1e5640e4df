-- ===== src/Members/Joining.antt =====
-- Consistency is kept when somebody accepts an invitation or registers a school.
use tutor_app_back.Members.{IsConsistent, Platform}
use tutor_app_back.Members.Rows.{modify-Belong, found-Belong}
use tutor_app_back.Members.Writes.{
  IsStored, add_user-IsConsistent, add_school-IsConsistent, change_invitations-IsConsistent,
}
use tutor_app_back.Invitations.Once.{redeem_outcome, insert_user-taken, insert_user-untaken}
use tutor_app_back.Invitations.{
  redeem, accept, accepted, joining, find_usable, is_unusable, insert_user, email_used,
}
use tutor_app_back.Schools.{
  insert_school, slug_used, register, RegisterSchool, new_school, new_user,
}
use tutor_app_back.Prelude.{
  ◌+◌, ◌≡◌, refl, ap, ◌∙◌, ◌⊎◌, inl, inr, Bool, true, false, arith, Bool-cases, Option-cases,
  get_or,
}
use tutor_app_back.Prelude.Int.{ℤ}
use tutor_app_back.Prelude.Table.{Key, modify, append, lookup-append, lookup_fresh, find_first}
use tutor_app_back.Model.{
  admin, SchoolRow, UserRow, User, InvitationRow, Db, Error, invitation_invalid, Result, ok, err,
  Action, transaction, ◌>>=◌, ◌>>◌, throw_if, >>=-ok, >>=-err,
}
use tutor_app_back.Model.Text.{Text, trim, text_eq}

redeem-IsConsistent :
    (now : ℤ) (name hash : Text) (k : Key) (i : InvitationRow) (db : Db)
    → IsStored i.school_id db
    → IsConsistent db
    → IsConsistent (redeem now name hash (k, i) db).1
redeem-IsConsistent now name hash k i db there c = elim (redeem_outcome now name hash k i db) [
  | inl (e, refused) ↦ rw refused c
  | inr (u, d, done, (_, fresh, _, after)) ↦
      let claimed = record db { invitations = modify k (accepted now) db.invitations } in
      let c' : IsConsistent claimed =
        change_invitations-IsConsistent claimed.invitations db.next_id db (omega arith)
          (modify-Belong (λ (j : InvitationRow). j.school_id) db.schools k (accepted now)
            db.invitations (λ j. refl) c.invited)
          c in
      rw (done, after) (add_user-IsConsistent (joining name hash i) claimed c' there fresh)
]

-- A link is refused, or found with an invitation of a stored school.
find_usable_cases :
    (now : ℤ) (token : Text) (db : Db)
    → IsConsistent db
    → (find_usable now token db ≡ (err invitation_invalid, db))
      ⊎ ((k : Key) × (i : InvitationRow) × IsStored i.school_id db
          × (find_usable now token db ≡ (ok (k, i), db)))
unfolding find_usable
find_usable_cases now token db c =
    elim (Option-cases
      (find_first (λ _ (i : InvitationRow). text_eq i.token token) db.invitations)) [
        | inl missing ↦ inl (rw (missing, find_usable) refl)
        | inr ((k, i), found) ↦ elim (Bool-cases (is_unusable now i)) [
          | inl stale ↦ inl (rw (found, find_usable, stale) refl)
          | inr good ↦ inr (
            k,
            i,
            found-Belong (λ (j : InvitationRow). j.school_id) db.schools
                (λ _ (j : InvitationRow). text_eq j.token token) k i db.invitations c.invited found,
            rw (found, find_usable, good) refl,
          )
        ]
      ]

pub accept-IsConsistent :
    (now : ℤ) (token name hash : Text) (db : Db)
    → IsConsistent db
    → IsConsistent (accept now token name hash db).1
unfolding accept
accept-IsConsistent now token name hash db c = elim (find_usable_cases now token db c) [
  | inl refused ↦ rw (>>=-err (find_usable now token) (redeem now name hash) db db refused) c
  | inr (k, i, there, found) ↦
      rw (>>=-ok (find_usable now token) (redeem now name hash) db db found)
        (redeem-IsConsistent now name hash k i db there c)
]

transaction_ok :
    {A : Type 0} (m : Action A) {a : A} (db d : Db)
    → m db ≡ (ok a, d)
    → transaction m db ≡ (ok a, d)
transaction_ok {A} m db d h =
    let run : Result A × Db → Result A × Db =
      λ p. elim (p.0) [ ok a ↦ (ok a, p.1) | err e ↦ (err e, db) ] in
    ap run h

transaction_err :
    {A : Type 0} (m : Action A) {e : Error} (db d : Db)
    → m db ≡ (err e, d)
    → transaction m db ≡ (err e, db)
transaction_err {A} m db d h =
    let run : Result A × Db → Result A × Db =
      λ p. elim (p.0) [ ok a ↦ (ok a, p.1) | err e ↦ (err e, db) ] in
    ap run h

insert_both-IsConsistent :
    (s : SchoolRow) (u : Key → UserRow) (db : Db)
    → ((k : Key) → (u k).school_id ≡ k)
    → slug_used s.slug db.schools ≡ false
    → IsConsistent db
    → IsConsistent (transaction (insert_school s >>= (λ k. insert_user (u k))) db).1
insert_both-IsConsistent s u db own fresh c =
    let added = record db { schools = append db.next_id s db.schools; next_id = db.next_id + 1 } in
    let c' : IsConsistent added = add_school-IsConsistent s db c fresh in
    let first : insert_school s db ≡ (ok db.next_id, added) = rw fresh refl in
    let both = λ (k : Key). insert_user (u k) in
    let there : IsStored (u db.next_id).school_id added = rw (own db.next_id) (
      ground (
        arith,
        lookup-append db.next_id db.next_id s db.schools
            (lookup_fresh db.next_id db.schools c.schools_below),
      )) in
    elim (Bool-cases (email_used (u db.next_id).email db.users)) [
      | inl taken ↦
          rw
            (transaction_err (insert_school s >>= both) db added (
              >>=-ok (insert_school s) both db added first
              ∙ insert_user-taken (u db.next_id) added taken))
            c
      | inr free ↦
          rw
            (transaction_ok (insert_school s >>= both) db _ (
              >>=-ok (insert_school s) both db added first
              ∙ insert_user-untaken (u db.next_id) added free))
            (add_user-IsConsistent (u db.next_id) added c' there free)
    ]

after_checks :
    {A : Type 0} (a b : Bool) (e e' : Error) (m : Action A) (db : Db)
    → a ≡ false
    → b ≡ false
    → (throw_if a e >> (throw_if b e' >> m)) db ≡ m db
after_checks true b e e' m db ha hb = absurd (cc)
after_checks false true e e' m db ha hb = absurd (cc)
after_checks false false e e' m db ha hb = refl

module _ (p : Platform) (dto : RegisterSchool) (hash : Text) (db : Db) where
  abbrev new_slug : Text
  new_slug = get_or dto.slug (p.slugify dto.school_name)

  abbrev new_email : Text
  new_email = p.lower (trim dto.admin_email)

  abbrev stored_both : Action User
  stored_both = transaction (
      insert_school (new_school p.unit new_slug dto)
      >>= (λ school. insert_user (new_user new_email hash dto.admin_name admin school)))

  register_unused :
      email_used new_email db.users ≡ false
      → slug_used new_slug db.schools ≡ false
      → register p.unit p.lower p.slugify dto hash db ≡ stored_both db
  unfolding register
  register_unused fresh free = after_checks _ _ _ _ stored_both db fresh free

  pub register-IsConsistent :
      IsConsistent db → IsConsistent (register p.unit p.lower p.slugify dto hash db).1
  unfolding register
  register-IsConsistent c = elim (Bool-cases (email_used new_email db.users)) [
    | inl taken ↦ rw (taken, register) c
    | inr fresh ↦ elim (Bool-cases (slug_used new_slug db.schools)) [
      | inl taken ↦ rw (fresh, register, taken, taken) c
      | inr free ↦ rw (register_unused fresh free) (
          insert_both-IsConsistent (new_school p.unit new_slug dto)
            (λ k. new_user new_email hash dto.admin_name admin k) db (λ k. refl) free c)
    ]
  ]
