-- ===== src/State/Metadata/Schema.antt =====
-- `session_schema_version`, at its first call and at later ones
-- (crates/metrune-core/src/state.rs).
use metrune.Prelude.{
  ◌≡◌, refl, ap, ◌∙◌, Option, none, some, List, [], ◌∷◌, arith, leb, if◌then◌else◌,
}
use metrune.Prelude.Text.{Text}
use metrune.Prelude.Order.{text_ord}
use metrune.Prelude.TreeMap.{get, update, get-update_self, get-update_ne}
use metrune.Core.Types.{DateTime, schema_version, legacy_schema_version}
use metrune.State.{LocalState, Codec, Result, ok, err}
use metrune.State.Metadata.{activation_key, keep_or, schema_for, parsed, session_schema_version}

module _ {F : Type 0} (c : Codec F) (session_key : Text) (started_at : DateTime)
    (db : LocalState) where
  -- A session that has no version yet gets the new schema exactly if it started no earlier than the
  -- activation on record.
  session_schema_version-new :
      {activated_at : DateTime}
      → get session_key db.session_schema ≡ none
      → parsed c (get activation_key db.local_metadata) ≡ ok activated_at
      → (db' : LocalState) × (session_schema_version c session_key started_at db
          ≡ ok (if leb activated_at started_at then schema_version else legacy_schema_version, db'))
  unfolding session_schema_version
  session_schema_version-new {activated_at} vacant marker =
      let version = schema_for c activated_at started_at in
      (
        record db { session_schema = update session_key (keep_or version) db.session_schema },
        ground (arith, vacant, marker),
      )

  session_schema_version-recorded :
      {version : Text} {db' : LocalState}
      → session_schema_version c session_key started_at db ≡ ok (version, db')
      → get session_key db'.session_schema ≡ some version
  unfolding session_schema_version
  session_schema_version-recorded {version} {db'} h =
      go (get session_key db.session_schema) (parsed c (get activation_key db.local_metadata)) refl
        refl
    where
      go :
          (found : Option Text) (marker : Result DateTime)
          → get session_key db.session_schema ≡ found
          → parsed c (get activation_key db.local_metadata) ≡ marker
          → get session_key db'.session_schema ≡ some version
      go (some v) marker e p = ground arith
      go none (err x) e p = ground arith
      go none (ok activated_at) e p =
          let chosen = schema_for c activated_at started_at in
          ground (arith, get-update_self session_key (keep_or chosen) db.session_schema)

module _ {F : Type 0} (c : Codec F) where
  -- The state after a call for a session and a start; a call that fails changes nothing.
  abbrev state_after : LocalState → Result (Text × LocalState) → LocalState
  state_after db (err x) = db
  state_after db (ok (version, db')) = db'

  abbrev pub later_calls : List (Text × DateTime) → LocalState → LocalState
  later_calls [] db = db
  later_calls ((key, started_at) ∷ calls) db =
      later_calls calls (state_after db (session_schema_version c key started_at db))

  get-state_after :
      (key j : Text) (started_at : DateTime) (db : LocalState) {version : Text}
      → get key db.session_schema ≡ some version
      → get key (state_after db (session_schema_version c j started_at db)).session_schema
        ≡ some version
  unfolding session_schema_version
  get-state_after key j started_at db {version} known =
      go (get j db.session_schema) (parsed c (get activation_key db.local_metadata)) refl refl
    where
      go :
          (found : Option Text) (marker : Result DateTime)
          → get j db.session_schema ≡ found
          → parsed c (get activation_key db.local_metadata) ≡ marker
          → get key (state_after db (session_schema_version c j started_at db)).session_schema
            ≡ some version
      go (some old) marker e p = rw (session_schema_version, e) known
      go none (err x) e p = rw (session_schema_version, e, p) known
      go none (ok activated_at) e p =
          rw (session_schema_version, e, p)
            (get-update_ne j key (keep_or (schema_for c activated_at started_at)) db.session_schema
                (λ same. ground (arith, ap (λ k. get k db.session_schema) same, e, known))
              ∙ known)

  get-later_calls :
      (key : Text) (calls : List (Text × DateTime)) (db : LocalState) {version : Text}
      → get key db.session_schema ≡ some version
      → get key (later_calls calls db).session_schema ≡ some version
  get-later_calls key [] db known = known
  get-later_calls key ((j, started_at) ∷ calls) db known =
      get-later_calls key calls (state_after db (session_schema_version c j started_at db))
        (get-state_after key j started_at db known)

  session_schema_version-known :
      (key : Text) (started_at : DateTime) (db : LocalState) {version : Text}
      → get key db.session_schema ≡ some version
      → session_schema_version c key started_at db ≡ ok (version, db)
  unfolding session_schema_version
  session_schema_version-known key started_at db known = ground (arith, known)

  -- Once a session has a version, and after whatever calls for this or for other sessions, a call
  -- for it returns that version and changes nothing, whatever start time it is given.
  pub session_schema_version-sticky :
      (key : Text) (started_at other_start : DateTime) (calls : List (Text × DateTime))
      (db : LocalState) {version : Text} {db' : LocalState}
      → session_schema_version c key started_at db ≡ ok (version, db')
      → session_schema_version c key other_start (later_calls calls db')
        ≡ ok (version, later_calls calls db')
  session_schema_version-sticky key started_at other_start calls db {version} {db'} h =
      session_schema_version-known key other_start (later_calls calls db')
        (get-later_calls key calls db' (session_schema_version-recorded c key started_at db h))
