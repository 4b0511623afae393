-- ===== src/Tests/Connections.antt =====
-- A handle manager in which two handles of one connection are made.
use naive_file_system.Prelude.{Bool, ◌≡◌, arith, true, some, [], ◌∷◌}
use naive_file_system.Outcome.{Returns}
use naive_file_system.Handles.{set_info, Hinfo, Hmap, get_handle, done_handle, safebind}
use naive_file_system.Handles.Counts.{occurrences, dropped, IsCounted}
use naive_file_system.Handles.System.{gets, here, onward, Reaches, Pool, empty, handle_lives}

abbrev one_user : Pool
one_user = record { hmap = (get_handle 4 empty.hmap).1; live = 4 ∷ [] }

abbrev two_users : Pool
two_users = record { hmap = (get_handle 4 one_user.hmap).1; live = 4 ∷ 4 ∷ [] }

two_users-Reaches : Reaches empty two_users
unfolding get_handle set_info
two_users-Reaches = onward (onward here (gets 4 (omega arith))) (gets 4 (omega arith))

handle_lives_example :
    Returns {A = Bool × Hmap} (safebind (some 4) true two_users.hmap) (λ r.
      IsCounted r.1 two_users.live
      × (r.0 ≡ true → (i : Hinfo) × (r.1 4 ≡ some i) × (i.bound ≡ true)))
    × Returns (done_handle 4 two_users.hmap) (λ after. IsCounted after (dropped 4 two_users.live))
handle_lives_example =
    handle_lives two_users 4 true two_users-Reaches (unfold occurrences in omega arith)
