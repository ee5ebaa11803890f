-- ===== src/Cron/Scheduler/Rows.antt =====
-- src/cron/schedule.ts: reads and writes of the rows by their ids.
use hellodac.Prelude.{◌≡◌, refl, String, some, List, [], ◌∷◌, map, arith, eq_iff}
use hellodac.Cron.Scheduler.State.{CronRow, row, update}

pub row-id : (id : String) (rows : List CronRow) (r : CronRow) → row id rows ≡ some r → r.id ≡ id
unfolding row
row-id id [] r e = ground arith
row-id id (q ∷ qs) r e = ground (arith, row-id id qs r, eq_iff q.id id)

-- An update is seen by the reader of its row.
pub row-update :
    (id : String) (f : CronRow → CronRow) (rows : List CronRow) (r : CronRow)
    → (f r).id ≡ r.id
    → row id rows ≡ some r
    → row id (update id f rows) ≡ some (f r)
unfolding row update
row-update id f [] r k e = ground arith
row-update id f (q ∷ qs) r k e = ground (arith, row-update id f qs r k, eq_iff q.id id)

-- What an update leaves alone in each row, it leaves alone in the table.
pub map-update {ℓ} :
    {B : Type ℓ} (h : CronRow → B) (id : String) (f : CronRow → CronRow) (rows : List CronRow)
    → ((q : CronRow) → h (f q) ≡ h q)
    → map h (update id f rows) ≡ map h rows
unfolding update
map-update h id f [] k = refl
map-update h id f (q ∷ qs) k = ground (arith, map-update h id f qs k, k q)
