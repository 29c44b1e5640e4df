-- ===== src/Members/Writes.antt =====
-- Consistency is kept when a row is added or changed.
use tutor_app_back.Members.Rows.{
  used, KeysBelow-mono, append-KeysBelow, modify-KeysBelow, append-IsDistinct, modify-IsDistinct,
  append-Belong, modify-Belong, Belong, Belong-mono, append_keeps, modify_keeps,
}
use tutor_app_back.Members.{IsConsistent}
use tutor_app_back.Invitations.{email_used, insert_user}
use tutor_app_back.Invitations.Once.{insert_user-taken, insert_user-untaken}
use tutor_app_back.Prelude.{ℕ, ◌+◌, ◌≤◌, ◌≡◌, inl, inr, true, false, arith, Bool-cases, is_some}
use tutor_app_back.Prelude.Table.{Key, Table, lookup, modify, append}
use tutor_app_back.Model.{SchoolRow, UserRow, InvitationRow, Db}

-- A stored school.
abbrev pub IsStored : Key → Db → Type 0
IsStored school db = is_some (lookup school db.schools) ≡ true

pub add_user-IsConsistent :
    (u : UserRow) (db : Db)
    → IsConsistent db
    → IsStored u.school_id db
    → email_used u.email db.users ≡ false
    → IsConsistent (record db { users = append db.next_id u db.users; next_id = db.next_id + 1 })
add_user-IsConsistent u db c there fresh = record {
  users_below = append-KeysBelow db.next_id u db.users c.users_below;
  schools_below =
      KeysBelow-mono db.next_id (db.next_id + 1) db.schools (omega arith) c.schools_below;
  addresses = append-IsDistinct (λ (v : UserRow). v.email) db.next_id u db.users fresh c.addresses;
  slugs = c.slugs;
  members =
      append-Belong (λ (v : UserRow). v.school_id) db.schools db.next_id u db.users there c.members;
  invited = c.invited;
}

pub add_school-IsConsistent :
    (s : SchoolRow) (db : Db)
    → IsConsistent db
    → used (λ (v : SchoolRow). v.slug) s.slug db.schools ≡ false
    → IsConsistent
        (record db { schools = append db.next_id s db.schools; next_id = db.next_id + 1 })
add_school-IsConsistent s db c fresh =
    let more = λ (k : Key) (there : is_some (lookup k db.schools) ≡ true).
      append_keeps db.next_id s db.schools k c.schools_below there in
    record {
      users_below = KeysBelow-mono db.next_id (db.next_id + 1) db.users (omega arith) c.users_below;
      schools_below = append-KeysBelow db.next_id s db.schools c.schools_below;
      addresses = c.addresses;
      slugs = append-IsDistinct (λ (v : SchoolRow). v.slug) db.next_id s db.schools fresh c.slugs;
      members =
          Belong-mono (λ (u : UserRow). u.school_id) db.schools (append db.next_id s db.schools)
            db.users more c.members;
      invited =
          Belong-mono (λ (i : InvitationRow). i.school_id) db.schools
            (append db.next_id s db.schools) db.invitations more c.invited;
    }

pub change_user-IsConsistent :
    (k : Key) (f : UserRow → UserRow) (db : Db)
    → ((u : UserRow) → (f u).email ≡ u.email)
    → ((u : UserRow) → (f u).school_id ≡ u.school_id)
    → IsConsistent db
    → IsConsistent (record db { users = modify k f db.users })
change_user-IsConsistent k f db email school c = record {
  users_below = modify-KeysBelow db.next_id k f db.users c.users_below;
  schools_below = c.schools_below;
  addresses = modify-IsDistinct (λ (v : UserRow). v.email) k f db.users email c.addresses;
  slugs = c.slugs;
  members = modify-Belong (λ (v : UserRow). v.school_id) db.schools k f db.users school c.members;
  invited = c.invited;
}

pub change_school-IsConsistent :
    (k : Key) (f : SchoolRow → SchoolRow) (db : Db)
    → ((s : SchoolRow) → (f s).slug ≡ s.slug)
    → IsConsistent db
    → IsConsistent (record db { schools = modify k f db.schools })
change_school-IsConsistent k f db slug c =
    let more = λ (j : Key) (there : is_some (lookup j db.schools) ≡ true).
      modify_keeps k j f db.schools there in
    record {
      users_below = c.users_below;
      schools_below = modify-KeysBelow db.next_id k f db.schools c.schools_below;
      addresses = c.addresses;
      slugs = modify-IsDistinct (λ (v : SchoolRow). v.slug) k f db.schools slug c.slugs;
      members =
          Belong-mono (λ (u : UserRow). u.school_id) db.schools (modify k f db.schools) db.users
            more c.members;
      invited =
          Belong-mono (λ (i : InvitationRow). i.school_id) db.schools (modify k f db.schools)
            db.invitations more c.invited;
    }

-- New invitations of stored schools, with or without a new id.
pub change_invitations-IsConsistent :
    (rows : Table InvitationRow) (n : ℕ) (db : Db)
    → db.next_id ≤ n
    → Belong (λ (i : InvitationRow). i.school_id) db.schools rows
    → IsConsistent db
    → IsConsistent (record db { invitations = rows; next_id = n })
change_invitations-IsConsistent rows n db le belong c = record {
  users_below = KeysBelow-mono db.next_id n db.users le c.users_below;
  schools_below = KeysBelow-mono db.next_id n db.schools le c.schools_below;
  addresses = c.addresses;
  slugs = c.slugs;
  members = c.members;
  invited = belong;
}

pub insert_user-IsConsistent :
    (u : UserRow) (db : Db)
    → IsConsistent db
    → IsStored u.school_id db
    → IsConsistent (insert_user u db).1
insert_user-IsConsistent u db c there = elim (Bool-cases (email_used u.email db.users)) [
  | inl taken ↦ rw (insert_user-taken u db taken) c
  | inr fresh ↦ rw (insert_user-untaken u db fresh) (add_user-IsConsistent u db c there fresh)
]
