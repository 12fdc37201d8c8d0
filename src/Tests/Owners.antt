-- ===== src/Tests/Owners.antt =====
-- Runs of the list repository and of the owner's handlers.
use yaadegar.Base.{
  ◌+◌, is_some, String, List, true, false, ◌≡◌, refl, [], ◌∷◌, some, arith, string_discrete,
}
use yaadegar.Base.Table.{select_row, select_where, count_where, update_where}
use yaadegar.Base.Int.{pos, ◌+ℤ◌}
use yaadegar.Storage.{ok, Account, UserRole, Availability, start_of_day}
use yaadegar.Sqlstore.Db.{inherit_from_storage, inherit_to_storage}
use yaadegar.Sqlstore.Lists
use yaadegar.Sqlstore.Lists.Calls.{ListCall, perform, perform_all}
use yaadegar.Sqlstore.Lists.Owned.{SingleOwner}
use yaadegar.Sqlstore.Lists.Sole.{perform_all-owner}
use yaadegar.Sqlstore.Lists.Titled.{AllTidy, perform_all-AllTidy}
use yaadegar.Sqlstore.Items
use yaadegar.Sqlstore.Reservations
use yaadegar.Sqlstore.Contributions
use yaadegar.Sqlstore.Matches
use yaadegar.World.{World, value}
use yaadegar.Api.{Runtime}
use yaadegar.Api.ThankYou.{send_or_forget}
use yaadegar.Api.Owned.{owns_list, own_item}
use yaadegar.Api.Owned.Gate.{OwnerRequest, serve, serve-refuses}
use yaadegar.Api.Items.{ItemView, show_item, to_gen_item, derive_availability}
use yaadegar.Api.Archive.{
  archive_item, archive_own, archive_warnings, warnings_of, reread, notify_givers_archived,
  notices_for, add, add_reservations, add_contributions, send_notices, reserved_notice,
  pledged_notice,
}
use yaadegar.Api.Archive.Notices.{once, is_holder}
use yaadegar.Api.Archive.Told.{received, TakesAll, InUse, archive_item-tells}
use yaadegar.Sqlstore.Lists.Overlap.{Unowned, add_owner-overlap}
use yaadegar.Sqlstore.Db.{Db}
use yaadegar.Api.Archive.Again.{archive_item-again}
use yaadegar.Tests.Fixtures.{gifts, kettle, db0, world0, runtime, after_hours}

one_owner : SingleOwner db0
unfolding count_where select_row
one_owner = record { at_most_one = λ id. ground arith; known = λ id missing. ground arith }

-- A second list is made, and the first is to have a second owner, which it is refused.
abbrev calls : List ListCall
calls =
    ListCall.creates "alice" "l2" (some "s2") (after_hours 1)
      (record gifts { id = ""; share_slug = ""; title = "Housewarming" }) "u2"
    ∷ ListCall.adds_owner "alice" "l1" "u2" (after_hours 2)
    ∷ []

still_owned : Lists.is_owner "alice" "l1" "u1" (perform_all (λ s. s) calls db0) ≡ true
unfolding perform_all perform Lists.create Lists.stored_title Lists.prep Lists.insert
    Lists.to_columns Lists.is_owner Lists.add_owner Lists.owners start_of_day inherit_from_storage
    inherit_to_storage select_row select_where count_where string_discrete
still_owned = refl

perform_all-owner_example : ◌≡◌ {A = String} "u1" "u1"
perform_all-owner_example =
    perform_all-owner (λ s. s) calls db0 "alice" "alice" "l1" "u1" "u1" one_owner still_owned
      still_owned

tidy : AllTidy (λ s. s) db0
unfolding count_where string_discrete
tidy = refl

perform_all-AllTidy_example : AllTidy (λ s. s) (perform_all (λ s. s) calls db0)
perform_all-AllTidy_example = perform_all-AllTidy (λ s. s) calls db0 (λ s. refl) tidy

abbrev stranger : Account
stranger = record { id = "u2"; role = UserRole.owner }

no_owner : Lists.is_owner "alice" "l1" "u2" db0 ≡ false
unfolding Lists.is_owner count_where select_row string_discrete
no_owner = refl

serve-refuses_example :
    serve runtime (some "alice") (some stranger) (OwnerRequest.deletes_list "l1") world0 ≡ world0
serve-refuses_example =
    serve-refuses runtime "alice" (some stranger) (OwnerRequest.deletes_list "l1") world0 no_owner

abbrev owner : Account
owner = record { id = "u1"; role = UserRole.owner }

abbrev archived : World
archived = (archive_item runtime (some "alice") (some owner) "i1" world0).1

abbrev shown : ItemView
shown =
    to_gen_item (record kettle { archived_at = some (after_hours 3) }) Availability.reserved (pos 2)

archive_run :
    archive_item runtime (some "alice") (some owner) "i1" world0 ≡ (value (shown, []), archived)
unfolding archive_item archive_own archive_warnings warnings_of reread notify_givers_archived
    notices_for add add_reservations add_contributions send_notices reserved_notice pledged_notice
    send_or_forget own_item owns_list show_item to_gen_item derive_availability Lists.is_owner
    Items.get Items.archive Items.reserved_quantity Items.funded_amount Matches.list_by_item
    Reservations.list_by_item Contributions.list_by_item select_row select_where count_where
    update_where string_discrete ◌+ℤ◌
archive_run = refl

abbrev later : Runtime
later = record runtime { now = after_hours 9 }

archive_item-again_example :
    (archive_item later (some "alice") (some owner) "i1" archived).1 ≡ archived
archive_item-again_example =
    archive_item-again runtime later "alice" "i1" (some owner) (some owner) world0 archived
      (shown, []) archive_run

taken : TakesAll runtime
taken m = refl

in_use : InUse "alice" "i1" db0
unfolding count_where string_discrete
in_use = refl

-- Two reservations on the kettle have the same address.
archive_item-tells_example :
    received runtime "g@example.com" archived.sent
    ≡ received runtime "g@example.com" []
      + once (is_holder runtime "alice" "i1" "g@example.com" db0)
unfolding string_discrete
archive_item-tells_example =
    archive_item-tells runtime "alice" "i1" "g@example.com" (some owner) world0 archived (shown, [])
      archive_run in_use taken refl

-- A list that its owner has left.
abbrev missing_owner : Db
missing_owner = record db0 { lists = record gifts { id = "l2" } ∷ [] }

unowned : Unowned "l2" missing_owner
unfolding count_where string_discrete
unowned = refl

listed : is_some (select_row (Lists.list_row "alice" "l2") missing_owner.lists) ≡ true
unfolding select_row string_discrete
listed = refl

add_owner-overlap_example :
    let read = Lists.owners "alice" "l2" missing_owner in
    (db1 : Db) × (db2 : Db) × (Lists.add_after read "alice" "l2" "u1" (after_hours 1) missing_owner
      ≡ ok (tt, db1))
    × (Lists.add_after read "alice" "l2" "u2" (after_hours 1) db1 ≡ ok (tt, db2))
    × (Lists.is_owner "alice" "l2" "u1" db2 ≡ true)
    × (Lists.is_owner "alice" "l2" "u2" db2 ≡ true)
unfolding string_discrete
add_owner-overlap_example =
    add_owner-overlap "alice" "l2" "u1" "u2" (after_hours 1) (after_hours 1) missing_owner listed
      unowned refl
