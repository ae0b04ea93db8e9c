-- ===== src/Store/Rows/Roundtrip.antt =====
-- What is written comes back (src/store.rs).
use hymenium.Prelude.{
  ℕ, ◌+◌, ◌≤◌, ◌≡◌, refl, String, false, Option, none, some, List, [], ◌∷◌, length, ltb, arith,
}
use hymenium.Workflow.Engine.{PhaseState, Timestamp, phase_status_text}
use hymenium.Store.{stored, agent_role_text}
use hymenium.Store.Codec.{parse_phase_status-text, parse_agent_role-text}
use hymenium.Store.Rows.{
  TimeCodec, time, PhaseRow, i64_max, map_time, parse_datetime, read_time, row_of, write_row,
  read_row, write_rows, read_rows,
}

module _ (codec : TimeCodec)
    (faithful : (t : Timestamp) → codec.parse_from_rfc3339 (codec.to_rfc3339 t) ≡ time t) where
  read_time-map_time :
      (t : Option Timestamp) (field : String)
      → read_time codec (map_time codec.to_rfc3339 t) field ≡ stored t
  unfolding parse_datetime
  read_time-map_time none field = refl
  read_time-map_time (some t) field = rw (parse_datetime, faithful t) refl

  read_row-write_row :
      (p : PhaseState) (order : ℕ)
      → order ≤ i64_max
      → (r : PhaseRow) × (write_row codec p order ≡ stored r) × (read_row codec r ≡ stored p)
  unfolding write_row row_of read_row
  read_row-write_row p order le =
      let e : ltb i64_max order ≡ false = ground arith in
      let a = (parse_agent_role-text (agent_role_text p.role) p.role).1 refl in
      let b = (parse_phase_status-text (phase_status_text p.status) p.status).1 refl in
      let s = read_time-map_time p.started_at "started_at" in
      let c = read_time-map_time p.completed_at "completed_at" in
      (row_of codec p order, rw e refl, rw (a, b, s, c) refl)

  -- If the timestamps' texts are read back as they were written and the phases' positions fit in an
  -- `i64`, the rows written for a list of phases are read back as the same phases in the same order.
  pub read_rows-write_rows :
      (ps : List PhaseState) (order : ℕ)
      → order + length ps ≤ i64_max
      → (rs : List PhaseRow) × (write_rows codec ps order ≡ stored rs)
        × (read_rows codec rs ≡ stored ps)
  unfolding write_rows read_rows
  read_rows-write_rows [] order le = ([], refl, refl)
  read_rows-write_rows (p ∷ ps) order le =
      let (r, w, e) = read_row-write_row p order (omega arith) in
      let (rs, ws, es) = read_rows-write_rows ps (order + 1) (omega arith) in
      (r ∷ rs, rw (w, ws) refl, rw (e, es) refl)
