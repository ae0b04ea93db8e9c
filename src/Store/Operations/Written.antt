-- ===== src/Store/Operations/Written.antt =====
-- The rows of the phases that an insert leaves, and that they come back in order (src/store.rs).
use mathlib.Core.List.{append_assoc, append-nil}
use hymenium.Prelude.{
  ℕ, ◌+◌, ◌≤◌, ◌≡◌, refl, sym, ◌∙◌, ap, String, true, false, some, List, [], ◌∷◌, ◌++◌, map, member,
  is_distinct, length, ltb, leb, str_eq, eq_iff, str_eq-same, is_some, arith, if◌then◌else◌,
}
use hymenium.Workflow.Engine.{PhaseState}
use hymenium.Store.{stored}
use hymenium.Store.Rows.{TimeCodec, PhaseRow, i64_max, row_of, write_row, write_rows}
use hymenium.Store.Tables.{
  PhaseEntry, Tables, find_row, put_entry, rows_of, order_rows, upsert_entry,
}
use hymenium.Store.Session.{Environment}
use hymenium.Store.Session.Ends.{Ends, bind-Ends, execute-Ends, lift-Ends}
use hymenium.Store.Operations.{upsert_phase_state, upsert_phases}

-- The rows of phases at positions from `n` on.
abbrev pub rows_from : TimeCodec → List PhaseState → ℕ → List PhaseRow
rows_from codec [] n = []
rows_from codec (p ∷ ps) n = row_of codec p n ∷ rows_from codec ps (n + 1)

abbrev pub put_rows : String → List PhaseRow → List PhaseEntry → List PhaseEntry
put_rows id [] es = es
put_rows id (r ∷ rs) es = put_rows id rs (put_entry id r es)

write_row-stored :
    (codec : TimeCodec) (p : PhaseState) (n : ℕ)
    → n ≤ i64_max
    → write_row codec p n ≡ stored (row_of codec p n)
unfolding write_row
write_row-stored codec p n le = let e : ltb i64_max n ≡ false = ground arith in rw e refl

pub write_rows-stored :
    (codec : TimeCodec) (ps : List PhaseState) (n : ℕ)
    → n + length ps ≤ i64_max
    → write_rows codec ps n ≡ stored (rows_from codec ps n)
unfolding write_rows
write_rows-stored codec [] n le = refl
write_rows-stored codec (p ∷ ps) n le =
    rw (write_row-stored codec p n (omega arith), write_rows-stored codec ps (n + 1) (omega arith))
      refl

-- Every phase of a known workflow is written.
pub upsert_phases-Ends :
    (R : Type 0) (env : Environment) (id : String) (ps : List PhaseState) (n : ℕ) (t : Tables)
    → ((i : ℕ) (m : String) → env.fault i ≡ some m → R)
    → is_some (find_row id t.workflows) ≡ true
    → n + length ps ≤ i64_max
    → Ends R t
        (upsert_phases env id ps n)
        λ _ u. u ≡ record t { phase_states = put_rows id (rows_from env.times ps n) t.phase_states }
unfolding upsert_phases upsert_phase_state
upsert_phases-Ends R env id [] n t g k le = λ s e. e
upsert_phases-Ends R env id (p ∷ ps) n t g k le =
    let row = row_of env.times p n in
    let t1 : Tables = record t { phase_states = put_entry id row t.phase_states } in
    bind-Ends R (λ _ u. u ≡ t1) _ t (upsert_phase_state env id p n)
      (λ _. upsert_phases env id ps (n + 1))
      (bind-Ends R (λ r u. (r ≡ row) × (u ≡ t)) _ t _ _
        (lift-Ends R t (write_row env.times p n) row (write_row-stored env.times p n (omega arith)))
        λ r u (a, b).
          rw (a, b)
            (execute-Ends R env (λ _ u. u ≡ t1) t (λ now. upsert_entry id row) g λ now. rw k refl))
      λ _ u a. rw a (upsert_phases-Ends R env id ps (n + 1) t1 g k (omega arith))

rows_of-put_entry :
    (id : String) (row : PhaseRow) (es : List PhaseEntry)
    → member row.phase_id (map (λ r. r.phase_id) (rows_of id es)) ≡ false
    → rows_of id (put_entry id row es) ≡ rows_of id es ++ row ∷ []
rows_of-put_entry id row [] h = ground (arith, str_eq-same id)
rows_of-put_entry id row (e ∷ es) h = ground (arith, rows_of-put_entry id row es)

member-append_id :
    (x : String) (rs : List PhaseRow) (r : PhaseRow)
    → member x (map (λ r. r.phase_id) (rs ++ r ∷ []))
      ≡ (if member x (map (λ r. r.phase_id) rs) then true else str_eq r.phase_id x)
member-append_id x [] r = ground arith
member-append_id x (y ∷ rs) r = ground (arith, member-append_id x rs r)

-- No row of the list is in the other.
abbrev pub Apart : List PhaseRow → List PhaseRow → Type 0
Apart [] xs = Unit {0}
Apart (r ∷ rs) xs = (member r.phase_id (map (λ r. r.phase_id) xs) ≡ false) × Apart rs xs

Apart-snoc :
    (rs xs : List PhaseRow) (r : PhaseRow)
    → Apart rs xs
    → member r.phase_id (map (λ r. r.phase_id) rs) ≡ false
    → Apart rs (xs ++ r ∷ [])
Apart-snoc [] xs r a m = tt
Apart-snoc (x ∷ rs) xs r a m = ground (
  arith,
  Apart-snoc rs xs r a.1,
  member-append_id x.phase_id xs r,
  eq_iff r.phase_id x.phase_id,
  eq_iff x.phase_id r.phase_id,
)

pub rows_of-put_rows :
    (id : String) (rs : List PhaseRow) (es : List PhaseEntry)
    → is_distinct (map (λ r. r.phase_id) rs) ≡ true
    → Apart rs (rows_of id es)
    → rows_of id (put_rows id rs es) ≡ rows_of id es ++ rs
rows_of-put_rows id [] es d a = sym (append-nil (rows_of id es))
rows_of-put_rows id (r ∷ rs) es d a =
    let e : rows_of id (put_entry id r es) ≡ rows_of id es ++ r ∷ [] =
      rows_of-put_entry id r es a.0 in
    let apart : Apart rs (rows_of id es ++ r ∷ []) =
      Apart-snoc rs (rows_of id es) r a.1 (ground arith) in
    let rest : rows_of id (put_rows id rs (put_entry id r es))
        ≡ rows_of id (put_entry id r es) ++ rs =
      rows_of-put_rows id rs (put_entry id r es) (ground arith) (rw e apart) in
    rest ∙ (ap (λ xs. xs ++ rs) e ∙ append_assoc (rows_of id es) (r ∷ []) rs)

pub order_rows-rows_from :
    (codec : TimeCodec) (ps : List PhaseState) (n : ℕ)
    → order_rows (rows_from codec ps n) ≡ rows_from codec ps n
unfolding row_of
order_rows-rows_from codec [] n = refl
order_rows-rows_from codec (p ∷ []) n = refl
order_rows-rows_from codec (p ∷ q ∷ ps) n =
    let e = order_rows-rows_from codec (q ∷ ps) (n + 1) in
    let le : leb n (n + 1) ≡ true = ground arith in rw (e, le) refl
