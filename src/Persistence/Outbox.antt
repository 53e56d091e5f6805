-- ===== src/Persistence/Outbox.antt =====
-- The outbox repository (crates/openpay-persistence/src/store.rs).
use vega_trix.Base.{
  ℕ, Bool, true, false, none, some, List, map, ok, select, take, leb, ◌==◌, if◌then◌else◌,
}
use vega_trix.Base.Machine.{Uuid, Instant}
use vega_trix.Base.Sort.{sort_by}
use vega_trix.Application.Ports.{OutboxRecord}
use vega_trix.Persistence.Db.{Query, OutboxRow}
use vega_trix.Persistence.Payments.{insert_outbox}

-- `published_at IS NULL`
abbrev pub is_unpublished : OutboxRow → Bool
is_unpublished row = elim row.published_at [ none ↦ true | some t ↦ false ]

-- `enqueue`
unfoldable pub enqueue : OutboxRecord → Query (Unit {0})
enqueue r db = (ok tt, insert_outbox r db)

-- `fetch_pending`
unfoldable pub fetch_pending : ℕ → Query (List OutboxRecord)
unfolding sort_by
fetch_pending limit db = (
  ok (
      take limit (
        sort_by (λ r s. leb r.created_at s.created_at)
          (map (λ row. row.record_of) (select is_unpublished db.outbox_events)))),
  db,
)

-- `mark_published`
unfoldable pub mark_published : Uuid → Instant → Query (Unit {0})
mark_published id now db = (
  ok tt,
  record db {
    outbox_events =
        map (λ row. if row.record_of.id == id then record row { published_at = some now } else row)
          db.outbox_events;
  },
)
