-- ===== src/Tests/Requests.antt =====
-- Examples of runs of requests.
use video_site.Common.{◌≡◌, refl, none, some, List, [], ◌∷◌, arith}
use video_site.Errors.{user_not_found}
use video_site.Database.Users
use video_site.Auth.DeleteUser.{delete_user, deactivate}
use video_site.Requests.{Request, failed, handle, run}
use video_site.Theorems.History.{Evolves, run-Evolves}
use video_site.Theorems.Unique.{Unique, run-Unique}
use video_site.Theorems.Atomic.{failed_keeps_db}
use video_site.Tests.{sample, device, world, tables}

abbrev requests : List Request
requests =
    Request.login (record { email = "ann@x"; password = "wrong" }) (some device)
    ∷ Request.refresh "refresh-1" none
    ∷ Request.delete_user 2 none
    ∷ Request.authenticate "access-1"
    ∷ []

run-Evolves_example : Evolves tables (run sample requests world).db
run-Evolves_example = run-Evolves sample requests world

pub tables-Unique : Unique tables
tables-Unique = record {
  below = ground arith;
  ids = (refl, (refl, tt));
  emails = (refl, (refl, tt));
  usernames = (refl, (refl, tt));
  jtis = (refl, (refl, (refl, tt)));
}

run-Unique_example : Unique (run sample requests world).db
run-Unique_example = run-Unique sample requests world tables-Unique

missing : (handle sample (Request.delete_user 9 none) world).0 ≡ failed user_not_found
unfolding handle delete_user deactivate Users.get_by_id Users.find_by_id
missing = refl

failed_keeps_db_example : (handle sample (Request.delete_user 9 none) world).1.db ≡ tables
failed_keeps_db_example =
    failed_keeps_db sample (Request.delete_user 9 none) world user_not_found missing (ground arith)
