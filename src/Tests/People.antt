-- ===== src/Tests/People.antt =====
-- The users and schools over several calls, evaluated on a school of two.
use tutor_app_back.Members.{IsConsistent, Platform, Reach, invites, accepts, here, next}
use tutor_app_back.Members.Invariant.{Reach-IsConsistent}
use tutor_app_back.Invitations.{invite, accept}
use tutor_app_back.Users.{UserConfig}
use tutor_app_back.Meetings.Providers.{Url}
use tutor_app_back.Tests.{head, north, user_row}
use tutor_app_back.Prelude.{refl, Option, none, [], ◌∷◌, arith}
use tutor_app_back.Prelude.Int.{pos}
use tutor_app_back.Model.{tutor, admin, Db}
use tutor_app_back.Model.Text.{Text, ascii}

abbrev two : Db
two = record north {
  users = (10, record (user_row tutor) { email = ascii "t@b.c" }) ∷ (11, user_row admin) ∷ [];
}

two-IsConsistent : IsConsistent two
two-IsConsistent = record {
  users_below = (omega arith, (omega arith, tt));
  schools_below = (omega arith, tt);
  addresses = (refl, (refl, tt));
  slugs = (refl, tt);
  members = (refl, (refl, tt));
  invited = tt;
}

abbrev no_url : Text → Option Url
no_url s = none

abbrev unreadable : Text → Option UserConfig
unreadable raw = none

abbrev printed : UserConfig → Text
printed c = ascii "{}"

abbrev as_typed : Text → Text
as_typed s = s

abbrev server : Platform
server = record {
  lower = as_typed;
  slugify = as_typed;
  unit = 100;
  ttl_hours = 48;
  parse_url = no_url;
  read = unreadable;
  render = printed;
}

abbrev after_invite : Db
after_invite = (invite as_typed 48 (pos 0) (ascii "l1nk") head (ascii "new@b.c") two).1

abbrev after_accept : Db
after_accept = (accept (pos 5) (ascii "l1nk") (ascii "Cy") (ascii "h1") after_invite).1

somebody_joins : Reach server two after_accept
somebody_joins =
    next (next here (invites (pos 0) (ascii "l1nk") head (ascii "new@b.c") two refl))
      (accepts (pos 5) (ascii "l1nk") (ascii "Cy") (ascii "h1") after_invite)

Reach-IsConsistent_example : IsConsistent after_accept
Reach-IsConsistent_example = Reach-IsConsistent server two-IsConsistent somebody_joins
