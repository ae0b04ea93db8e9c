-- ===== src/Context/Pairing.antt =====
-- What is retained is paired (src/context.rs).
use mathlib.Core.Path.{subst}
use mathlib.Core.List.{append-nil, append_assoc}
use hymenium.Prelude.{
  String, ◌≡◌, refl, ◌∙◌, true, not, ◌&&◌, Option, none, some, List, [], ◌∷◌, ◌++◌, if◌then◌else◌,
  is_some, arith, sym, ◌⊎◌, inl, inr, Bool-cases,
}
use hymenium.Context.{
  CompressionItem, ContextMessageRole, tool_call, tool_result, ContextMessage, member, Retention,
  empty_retention, keep_result, retain_role, retain_from, retain_and_prune,
}

-- The calls and the answered calls seen so far.
abbrev pub Seen : Type 0
Seen = List String × List String

abbrev pub see_result : Option String → Seen → Option Seen
see_result none seen = none
see_result (some id) (calls, results) =
    if member id calls && not (member id results) then some (calls, id ∷ results) else none

-- One more message: a call must be new, a result must answer a call that was seen and that has no
-- result yet.
abbrev pub see : ContextMessageRole → ContextMessage → Seen → Option Seen
see tool_call m (calls, results) = if member m.id calls then none else some (m.id ∷ calls, results)
see tool_result m seen = see_result m.tool_call_id seen
see _ m seen = some seen

abbrev pub see_next : Option Seen → ContextMessage → Option Seen
see_next none m = none
see_next (some seen) m = see m.role m seen

-- Reads the messages in order; `none` where a message is out of place.
abbrev pub see_all : Option Seen → List ContextMessage → Option Seen
see_all seen [] = seen
see_all seen (m ∷ rest) = see_all (see_next seen m) rest

see_all-append :
    (seen : Option Seen) (xs : List ContextMessage) (m : ContextMessage)
    → see_all seen (xs ++ m ∷ []) ≡ see_next (see_all seen xs) m
see_all-append seen [] m = refl
see_all-append seen (x ∷ xs) m = see_all-append (see_next seen x) xs m

abbrev Paired : Retention → Type 0
Paired st = see_all (some ([], [])) st.output ≡ some (st.retained_calls, st.retained_results)

retain_role-Paired :
    (r : ContextMessageRole) (m : ContextMessage) (st : Retention)
    → m.role ≡ r
    → Paired st
    → Paired (retain_role r m st)
retain_role-Paired r m st e h = ground (arith, see_all-append (some ([], [])) st.output m)

retain_from-Paired :
    (ms : List ContextMessage) (st : Retention) → Paired st → Paired (retain_from ms st)
unfolding retain_from
retain_from-Paired [] st h = h
retain_from-Paired (m ∷ rest) st h =
    retain_from-Paired rest (retain_role m.role m st) (retain_role-Paired m.role m st refl h)

-- Reading the retained messages in order, no call ID comes twice, and each tool result answers a
-- call that came before it and that no earlier result answered.
pub see_all-retain_and_prune :
    (ms : List ContextMessage)
    → is_some (see_all (some ([], [])) (retain_and_prune ms).output) ≡ true
unfolding retain_and_prune
see_all-retain_and_prune ms = rw (retain_from-Paired ms empty_retention refl) refl

abbrev pub item : ContextMessage → String → CompressionItem
item m note = record { message_id = m.id; role = m.role; note = note }

-- Reading messages in order with what was seen of those retained so far: a message that is in place
-- is the next one retained, and one that is out of place is the next one reported, by its ID and
-- its role.
pub data Sorted
    : Seen → List ContextMessage → List ContextMessage → List CompressionItem → Type 0 where
  all_read : {seen : Seen} → Sorted seen [] [] []
  retained :
      {seen : Seen} {m : ContextMessage} {ms out : List ContextMessage}
      {removed : List CompressionItem} (next : Seen)
      → see m.role m seen ≡ some next
      → Sorted next ms out removed
      → Sorted seen (m ∷ ms) (m ∷ out) removed
  reported :
      {seen : Seen} {m : ContextMessage} {ms out : List ContextMessage}
      {removed : List CompressionItem} (note : String)
      → see m.role m seen ≡ none
      → Sorted seen ms out removed
      → Sorted seen (m ∷ ms) out (item m note ∷ removed)

abbrev seen_by : Retention → Seen
seen_by st = (st.retained_calls, st.retained_results)

-- One message: it is in place and appended to the output, or out of place and reported.
abbrev Turn : ContextMessage → Retention → Retention → Type 0
Turn m st u =
    ((see m.role m (seen_by st) ≡ some (seen_by u))
      × (u.output ≡ st.output ++ m ∷ [])
      × (u.removed ≡ st.removed))
    ⊎ ((note : String) × (see m.role m (seen_by st) ≡ none)
        × (seen_by u ≡ seen_by st)
        × (u.output ≡ st.output)
        × (u.removed ≡ st.removed ++ item m note ∷ []))

keep_result-Turn :
    (m : ContextMessage) (st : Retention) (id : Option String)
    → m.role ≡ tool_result
    → m.tool_call_id ≡ id
    → Turn m st (keep_result m id st)
keep_result-Turn m st none e f =
    inr
      ("tool result missing call id removed during sanitization", rw (e, f) refl, refl, refl, refl)
keep_result-Turn m st (some id) e f = elim (Bool-cases (member id st.retained_calls)) [
  | inl k ↦ elim (Bool-cases (member id st.retained_results)) [
    | inl l ↦ inr (
      "tool result removed during sanitization",
      rw (e, f, k, l) refl,
      rw (k, l) refl,
      rw (k, l) refl,
      rw (k, l) refl,
    )
    | inr l ↦ inl (rw (e, f, k, l) refl, rw (k, l) refl, rw (k, l) refl)
  ]
  | inr k ↦ inr ("orphaned tool result removed", rw (e, f, k) refl, rw k refl, rw k refl, rw k refl)
]

retain_role-Turn :
    (r : ContextMessageRole) (m : ContextMessage) (st : Retention)
    → m.role ≡ r
    → Turn m st (retain_role r m st)
retain_role-Turn tool_call m st e = elim (Bool-cases (member m.id st.retained_calls)) [
  | inl k ↦ inr (
    "duplicate tool call removed during sanitization",
    rw (e, k) refl,
    rw k refl,
    rw k refl,
    rw k refl,
  )
  | inr k ↦ inl (rw (e, k) refl, rw k refl, rw k refl)
]
retain_role-Turn tool_result m st e = keep_result-Turn m st m.tool_call_id e refl
retain_role-Turn ContextMessageRole.system m st e = inl (rw e refl, refl, refl)
retain_role-Turn ContextMessageRole.user m st e = inl (rw e refl, refl, refl)
retain_role-Turn ContextMessageRole.assistant m st e = inl (rw e refl, refl, refl)

-- What is still to be read, sorted, follows what was sorted before.
abbrev SortedFrom : List ContextMessage → Retention → Retention → Type 0
SortedFrom ms st u =
    (out : List ContextMessage) × (removed : List CompressionItem) × Sorted (seen_by st) ms out
      removed
    × (u.output ≡ st.output ++ out)
    × (u.removed ≡ st.removed ++ removed)

retain_from-Sorted :
    (ms : List ContextMessage) (st : Retention) → SortedFrom ms st (retain_from ms st)
unfolding retain_from
retain_from-Sorted [] st =
    ([], [], all_read, sym (append-nil st.output), sym (append-nil st.removed))
retain_from-Sorted (m ∷ rest) st =
    let u = retain_role m.role m st in
    let (out, removed, s, o, r) = retain_from-Sorted rest u in
    elim (retain_role-Turn m.role m st refl) [
      | inl (e, a, b) ↦ (
        m ∷ out,
        removed,
        retained (seen_by u) e s,
        o ∙ rw a (append_assoc st.output (m ∷ []) out),
        r ∙ rw b refl,
      )
      | inr (note, e, c, a, b) ↦ (
        out,
        item m note ∷ removed,
        reported note e (subst (λ x. Sorted x rest out removed) c s),
        o ∙ rw a refl,
        r ∙ rw b (append_assoc st.removed (item m note ∷ []) removed),
      )
    ]

-- The messages are retained or reported one by one, in their order, and each is retained exactly if
-- it is in place behind those retained before it: a tool call must be new, and a tool result must
-- answer a call that was retained and has no result yet. A message that is not retained is reported
-- with its own ID and role.
pub retain_and_prune-Sorted :
    (ms : List ContextMessage)
    → Sorted ([], []) ms (retain_and_prune ms).output (retain_and_prune ms).removed
unfolding retain_and_prune
retain_and_prune-Sorted ms =
    let (out, removed, s, o, r) = retain_from-Sorted ms empty_retention in rw (o, r) s
