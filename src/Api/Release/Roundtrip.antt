-- ===== src/Api/Release/Roundtrip.antt =====
-- Reserving, and releasing with the capability token that the reserve returned.
use yaadegar.Base.{String, false, ◌==◌, ◌≡◌, sym, ◌∙◌, ap, Option, some, arith}
use mathlib.Core.Option.{some-injective}
use yaadegar.Storage.{Reservation}
use yaadegar.Sqlstore.Db.{Db}
use yaadegar.Sqlstore.Reservations.Undo.{Stored, delete-create, by_token_hash-create}
use yaadegar.World.{World}
use yaadegar.Api.{Server, Runtime, Reply}
use yaadegar.Api.Reserve.{ReserveRequest, create_reservation}
use yaadegar.Api.Reserve.Guest.{create_reservation-Granted}
use yaadegar.Api.Release.{release_reservation, release_found, delete_row}

release-Stored :
    (rt : Runtime) (tenant raw : String) (r : Reservation) (db : Db) (w : World)
    → Stored tenant r db w.db
    → rt.hash raw ≡ r.token_hash
    → (raw == "") ≡ false
    → release_reservation rt (some tenant) r.id raw w ≡ (Reply.no_content, record w { db = db })
unfolding release_reservation release_found delete_row
release-Stored rt tenant raw r db w stored hashed set =
    let found = by_token_hash-create tenant r db w.db stored in
    let undone = delete-create tenant r db w.db stored in
    rw (hashed, set, found, undone) (ground arith)

-- Reserving and releasing: when a request on the anonymous surface is answered by an active
-- reservation, a release of that reservation with the token of the answer is answered 204, and the
-- database is what it was before the request. The token is hashed alike at both ends, and is not "".
pub release-create_reservation :
    (s : Server) (rt : Runtime) (tenant : String) (req : ReserveRequest) (w : World)
    → (id raw hash : String) (tok : Option String) → rt.new_token ≡ some (raw, hash)
    → rt.hash raw ≡ hash
    → (raw == "") ≡ false
    → (create_reservation s rt (some tenant) req w).0 ≡ Reply.reserved id tok
    → let w' = (create_reservation s rt (some tenant) req w).1 in
      (tok ≡ some raw)
      × (release_reservation rt (some tenant) id raw w'
          ≡ (Reply.no_content, record w' { db = w.db }))
release-create_reservation s rt tenant req w id raw hash tok minted hashed set h =
    let g = create_reservation-Granted s rt tenant req w id tok h in
    let same : (raw, hash) ≡ (g.raw, g.row.token_hash) =
      some-injective _ _ (sym minted ∙ g.minted) in
    let w' = (create_reservation s rt (some tenant) req w).1 in
    (
      g.issued ∙ ap some (sym (ap (λ p. p.0) same)),
      rw⁻¹ g.row_id
          (release-Stored rt tenant raw g.row w.db w' g.stored (hashed ∙ ap (λ p. p.1) same) set),
    )
