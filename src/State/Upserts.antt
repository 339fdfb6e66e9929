-- ===== src/State/Upserts.antt =====
-- What `upsert_service` of rust/src/state.rs leaves in the row of a service.
use mathlib.Core.Option.{none-ne-some, some-injective}
use megaserver.Common.{
  ℕ, ◌+◌, String, ◌≡◌, ◌≢◌, refl, sym, ap, ◌∙◌, List, [], ◌∷◌, Bool-cases, inl, inr, Option, none,
  some, false, arith, eq_iff, eq_refl, ◌==◌,
}
use megaserver.Rows.{Stamp, upserted, find, text_key}
use megaserver.Model.{ServiceRecord}
use megaserver.State.{Db}
use megaserver.State.Services.{
  ServiceUpsert, service_key, service_by_name, upsert_service, new_service, updated_service,
}
use megaserver.State.Lookups.{service_by_name-upsert_service}

-- The row has the values of the statement, and the time of the statement as its last change.
abbrev pub HasValues : Stamp → ServiceUpsert → ServiceRecord → Type 0
HasValues st s r =
    (r.name ≡ s.service_name)
    × (r.status ≡ s.status)
    × (r.app_path ≡ s.app_path)
    × (r.manifest_json ≡ s.manifest_json)
    × (r.plan_json ≡ s.plan_json)
    × (r.port ≡ s.port)
    × (r.health_path ≡ s.health_path)
    × (r.updated_at ≡ st.now)

-- A row that was there keeps its id, its process and the time of its creation; a new one has the next id, no process, and
-- the time of the statement.
abbrev pub Continues : Stamp → Option ServiceRecord → ℕ → ServiceRecord → Type 0
Continues st none seq r = (r.id ≡ seq + 1) × (r.pid ≡ none) × (r.created_at ≡ st.now)
Continues st (some old) seq r =
    (r.id ≡ old.id) × (r.pid ≡ old.pid) × (r.created_at ≡ old.created_at)

abbrev pub IsUpserted : Stamp → ServiceUpsert → Db → Db → Type 0
IsUpserted st s db out =
    ((r : ServiceRecord) × (service_by_name out s.service_name ≡ some r)
      × HasValues st s r
      × Continues st (service_by_name db s.service_name) db.services.seq r)
    × ((j : String) → s.service_name ≢ j → service_by_name out j ≡ service_by_name db j)

module _ (st : Stamp) (s : ServiceUpsert) where
  row-facts :
      (old : Option ServiceRecord) (seq : ℕ)
      → ((r : ServiceRecord) → old ≡ some r → r.name ≡ s.service_name)
      → HasValues st s (upserted old (new_service st s (seq + 1)) (updated_service st s))
        × Continues st old seq (upserted old (new_service st s (seq + 1)) (updated_service st s))
  row-facts none seq named = ((refl, refl, refl, refl, refl, refl, refl, refl), (refl, refl, refl))
  row-facts (some r) seq named =
      ((named r refl, refl, refl, refl, refl, refl, refl, refl), (refl, refl, refl))

name-find :
    (name : String) (rows : List ServiceRecord) (r : ServiceRecord)
    → find service_key name rows ≡ some r
    → r.name ≡ name
unfolding find
name-find name [] r e = absurd (none-ne-some r e)
name-find name (x ∷ rows) r e = elim (Bool-cases (x.name == name)) [
  | inl same ↦
      ap (λ y. y.name) (sym (some-injective x r (rw same refl ∙ e))) ∙ (eq_iff x.name name).0 same
  | inr other ↦ name-find name rows r (rw other refl ∙ e)
]

-- After the upsert the service of that name has a row with all the values of the statement; one that had a row keeps its
-- id, its process and the time of its creation, and another has the next id and no process. Every other service is
-- found as before.
pub upsert_service-IsUpserted :
    (st : Stamp) (s : ServiceUpsert) (db : Db) → IsUpserted st s db (upsert_service st s db)
unfolding service_by_name
upsert_service-IsUpserted st s db =
    let old = service_by_name db s.service_name in
    let facts =
      row-facts st s old db.services.seq (λ r e. name-find s.service_name db.services.rows r e) in
    (
      (
        upserted old (new_service st s (db.services.seq + 1)) (updated_service st s),
        rw (service_by_name-upsert_service, eq_refl) refl,
        facts.0,
        facts.1,
      ),
      (λ j differs.
          let e : (s.service_name == j) ≡ false = ground (arith, eq_iff s.service_name j) in
          rw (service_by_name-upsert_service, e) refl),
    )
