-- ===== src/Tests/Delivery.antt =====
-- Theorems on listing, storing, seeding, the hub and the senders at concrete inputs.
use mathlib.Core.List.{Perm}
use skills.Prelude.{◌≡◌, refl, none, some, List, [], ◌∷◌, same, arith, map}
use skills.World.{Row, World}
use skills.Domain.Types.{Notification, pending, sending, not_sent}
use skills.Domain.Errors.{ok}
use skills.Database.{order_rows, by_email, by_id, conflicts}
use skills.Database.Order.{IsOrdered}
use skills.Api.List.{item}
use skills.Api.List.Cursor.{IsBase64}
use skills.Api.List.Walk.{walk, walk-order_rows}
use skills.Store.Roundtrip.{CreatesAndReads, ReadsBack, create-get, update-get}
use skills.Sqlite.{insert_values, create_notification, get_notification_by_email}
use skills.Sqlite.Times.{WholeSeconds, create-get-WholeSeconds}
use skills.Tests.Fixtures.{env, store, contract, env-Healthy, row_of, world_of}

abbrev two_rows : List Row
two_rows = row_of "ntf_u0" "bob@fail.com" 0 0 ∷ row_of "ntf_a" "ann@work.org" 2 1 ∷ []

abbrev world : World
world = world_of two_rows

env-IsBase64 : IsBase64 env
env-IsBase64 = record { decode-encode = λ s. refl; encode_not_empty = λ s h. h }

walk-order_rows_example :
    Perm (order_rows two_rows) two_rows
    × IsOrdered (order_rows two_rows)
    × (walk env store (some 1) 2 "" world
        ≡ some (map (λ r. item (contract.scan r)) (order_rows two_rows)))
unfolding same conflicts
walk-order_rows_example =
    walk-order_rows env store contract env-IsBase64 env-Healthy (some 1) two_rows (refl, (refl, tt))
      (refl, (refl, tt)) 2 world refl (omega arith) (omega arith)

abbrev cat : Notification
cat = record {
  id = "ntf_c";
  email = "cat@work.org";
  status = pending;
  retry_count = 0;
  retry_limit = 3;
  created_at = 0;
  updated_at = 0;
}

create-get_example : CreatesAndReads store cat world (store.create_notification cat world)
create-get_example = create-get env store contract env-Healthy world cat

-- Bob's notification, with a status and a count to be written.
abbrev bob : Notification
bob = record {
  id = "ntf_u0";
  email = "bob@fail.com";
  status = not_sent;
  retry_count = 1;
  retry_limit = 3;
  created_at = 0;
  updated_at = 0;
}

update-get_example :
    ((m : Notification) × (w1 : World) × (store.update_notification bob world ≡ (ok m, w1))
      × ReadsBack store bob w1)
    × ((w1 : World) × (w2 : World) × (store.notification_state_mutator "ntf_u0" sending world
          ≡ (none, w1))
        × (store.notification_state_accessor "ntf_u0" w1 ≡ (ok sending, w2)))
unfolding same by_email by_id
update-get_example =
    update-get env store contract env-Healthy world bob (row_of "ntf_u0" "bob@fail.com" 0 0) sending
      refl refl refl

create-get-WholeSeconds_example :
    (m m' : Notification) × (w1 w2 : World) × (create_notification env cat world ≡ (ok m, w1))
    × (get_notification_by_email env "cat@work.org" w1 ≡ (ok m', w2))
    × (m.created_at ≡ 0)
    × WholeSeconds m'.created_at m.created_at
    × WholeSeconds m'.updated_at m.updated_at
unfolding same conflicts insert_values
create-get-WholeSeconds_example = create-get-WholeSeconds env cat world env-Healthy refl
