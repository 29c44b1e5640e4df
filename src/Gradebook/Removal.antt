-- ===== src/Gradebook/Removal.antt =====
-- What becomes of the gradebook when src/groups/groups.service.ts removes a group: the cascades of
-- prisma/schema.prisma run through its lessons.
use tutor_app_back.Groups
use tutor_app_back.Access.{group-find_one-state}
use tutor_app_back.Gradebook.Journal.{find_line}
use tutor_app_back.Prelude.{
  ◌≡◌, refl, sym, ap, ◌∙◌, Bool, false, none, some, List, [], ◌∷◌, arith, if◌then◌else◌, filter,
}
use tutor_app_back.Prelude.Table.{Key, Table, lookup, map_rows}
use tutor_app_back.Model.{
  User, LessonRow, AttendanceRow, GradeRow, Db, ok, write, >>=-eq-ok, is_key, is_deleted_ref,
  clear_lesson, delete_group,
}

lookup-map_rows :
    {V : Type 0} (f : V → V) (k : Key) (t : Table V) (v : V)
    → lookup k t ≡ some v
    → lookup k (map_rows f t) ≡ some (f v)
lookup-map_rows f k [] v h = absurd (cc)
lookup-map_rows f k ((j, w) ∷ t) v h = ground (arith, lookup-map_rows f k t v)

find_line-filter :
    (p : AttendanceRow → Bool) (lesson student : Key) (rows : List AttendanceRow)
    → ((a : AttendanceRow) → a.lesson_id ≡ lesson → p a ≡ false)
    → find_line lesson student (filter p rows) ≡ none
find_line-filter p lesson student [] gone = refl
find_line-filter p lesson student (a ∷ rows) gone =
    ground (arith, find_line-filter p lesson student rows gone, gone a)

-- Removing a group keeps every mark with its value, weight, kind, student and author, and takes the lesson off
-- those given in the group's lessons; but the whole register of those lessons is gone.
pub remove_group_keeps_marks :
    (user : User) (id : Key) (db : Db) {d : Db}
    → Groups.remove user id db ≡ (ok tt, d)
    → ((k : Key) (g : GradeRow)
        → lookup k db.grades ≡ some g
        → lookup k d.grades
          ≡ some (record g {
            lesson_id =
                if is_deleted_ref (λ l. is_key id l.group_id) db.lessons g.lesson_id
                then none
                else g.lesson_id;
          }))
      × ((lesson student : Key) (l : LessonRow)
          → lookup lesson db.lessons ≡ some l
          → l.group_id ≡ some id
          → find_line lesson student d.attendances ≡ none)
unfolding Groups.remove delete_group
remove_group_keeps_marks user id db {d} h =
    let (g, c, found, rest) =
      >>=-eq-ok (Groups.find_one user id) (λ _. write (delete_group id)) db h in
    let here : c ≡ db = sym (ap (λ p. p.1) found) ∙ group-find_one-state user id db in
    let gone : d ≡ delete_group id db = sym (ap (λ p. p.1) rest) ∙ ap (delete_group id) here in
    (
      λ k g found. rw gone (
          lookup-map_rows (clear_lesson (λ l. is_key id l.group_id) db.lessons) k db.grades g
            found),
      λ lesson student l found of_group.
          rw gone (find_line-filter _ lesson student db.attendances (λ a e. ground arith)),
    )
