-- ===== src/Session/Refinement.antt =====
-- Runs of the session store against a table that never forgets.

use mcp_bridge.Prelude.{
  ℕ, ◌≤◌, ◌≡◌, refl, sym, ap, ◌∙◌, Bool, true, false, ◌&&◌, Option-cases, Option, none, some, List,
  [], ◌∷◌, arith, if◌then◌else◌, String, str_eq, StrMap, find, put, remove, find-put, find-remove,
  Bool-cases, ◌⊎◌, subst, eq_iff, inl, inr, Result, ok, err,
}
use mcp_bridge.Session.{
  Session, Claims, SessionError, MemoryManager, create_store, lookup, is_expired, session_of,
  create_session, get_session, remove_session, perform_cleanup,
}
use mcp_bridge.Session.Cleanup.{live, live-live, lookup-perform_cleanup}

pub data Op : Type 0 where
  create : String → Claims → Op
  get : String → Op
  delete : String → Op
  clean : Op

-- What `GetSession` serves, an error being none.
abbrev pub served : Result SessionError Session → Option Session
served (ok s) = some s
served (err e) = none

-- The sessions served to the gets of a run of timed operations; `none` for a panic.
unfoldable pub run : MemoryManager → List (Op × ℕ) → Option (List (Option Session))
run m [] = some []
run m ((create id claims, now) ∷ ops) = elim (create_session m id claims now) [
  | none ↦ none
  | some (m', s) ↦ run m' ops
]
run m ((get id, now) ∷ ops) =
    let (m', r) = get_session m id now in
    elim (run m' ops) [ none ↦ none | some rs ↦ some (served r ∷ rs) ]
run m ((delete id, now) ∷ ops) = run (remove_session m id) ops
run m ((clean, now) ∷ ops) = run (perform_cleanup m now) ops

-- The claims have an expiry, without which `CreateSession` panics.
abbrev pub has_expiry : Claims → Bool
has_expiry claims = elim claims.expires_at [ none ↦ false | some expiry ↦ true ]

abbrev pub all_expire : List (Op × ℕ) → Bool
all_expire [] = true
all_expire ((create id claims, now) ∷ ops) = has_expiry claims && all_expire ops
all_expire ((get id, now) ∷ ops) = all_expire ops
all_expire ((delete id, now) ∷ ops) = all_expire ops
all_expire ((clean, now) ∷ ops) = all_expire ops

abbrev pub created : String → Claims → ℕ → Option Session
created id claims now = elim claims.expires_at [
  | none ↦ none
  | some expiry ↦ some (session_of id claims expiry now)
]

-- The specification: a table of what was created and not removed since, which never forgets.
unfoldable pub table_answers : (String → Option Session) → List (Op × ℕ) → List (Option Session)
table_answers table [] = []
table_answers table ((create id claims, now) ∷ ops) =
    table_answers (λ j. if str_eq id j then created id claims now else table j) ops
table_answers table ((get id, now) ∷ ops) = live now (table id) ∷ table_answers table ops
table_answers table ((delete id, now) ∷ ops) =
    table_answers (λ j. if str_eq id j then none else table j) ops
table_answers table ((clean, now) ∷ ops) = table_answers table ops

-- The clock does not go back.
abbrev pub InOrder : ℕ → List (Op × ℕ) → Type 0
InOrder clock [] = Unit {0}
InOrder clock ((op, now) ∷ ops) = (clock ≤ now) × InOrder now ops

abbrev store : StrMap Session → MemoryManager
store sessions = record { sessions = some sessions }

-- From `clock` on the store has the live sessions of the table.
abbrev Serves : StrMap Session → ℕ → (String → Option Session) → Type 0
Serves sessions clock table =
    (t : ℕ) → clock ≤ t → (j : String) → live t (find j sessions) ≡ live t (table j)

put-Serves :
    (m : StrMap Session) (clock now : ℕ) (table : String → Option Session) (id : String)
    (s : Session)
    → clock ≤ now
    → Serves m clock table
    → Serves (put id s m) now (λ j. if str_eq id j then some s else table j)
put-Serves m clock now table id s o v t h j = elim (Bool-cases (str_eq id j)) [
  | inl same ↦ ap (live t) (find-put id j s m) ∙ rw same refl
  | inr other ↦ ap (live t) (find-put id j s m) ∙ rw other (v t (omega arith) j)
]

remove-Serves :
    (m : StrMap Session) (clock now : ℕ) (table : String → Option Session) (id : String)
    → clock ≤ now
    → Serves m clock table
    → Serves (remove id m) now (λ j. if str_eq id j then none else table j)
remove-Serves m clock now table id o v t h j = elim (Bool-cases (str_eq id j)) [
  | inl same ↦ ap (live t) (find-remove id j m) ∙ rw same refl
  | inr other ↦ ap (live t) (find-remove id j m) ∙ rw other (v t (omega arith) j)
]

live_later : (now t : ℕ) (o : Option Session) → live now o ≡ none → now ≤ t → live t o ≡ none
live_later now t none e h = refl
live_later now t (some s) e h = ground arith

-- Dropping a session that has expired.
expired-Serves :
    (m : StrMap Session) (clock now : ℕ) (table : String → Option Session) (id : String)
    → clock ≤ now
    → live now (find id m) ≡ none
    → Serves m clock table
    → Serves (remove id m) now table
expired-Serves m clock now table id o old v t h j = elim (Bool-cases (str_eq id j)) [
  | inl same ↦
      let e = (eq_iff id j).0 same in
      let gone = subst (λ k. live t (find k m) ≡ none) e (live_later now t (find id m) old h) in
      ap (live t) (find-remove id j m) ∙ rw same (sym gone) ∙ v t (omega arith) j
  | inr other ↦ ap (live t) (find-remove id j m) ∙ rw other (v t (omega arith) j)
]

-- The three ways through `GetSession` of an open store.
get_session_cases :
    (m : StrMap Session) (id : String) (now : ℕ)
    → (((get_session (store m) id now).0 ≡ store m)
        × (served (get_session (store m) id now).1 ≡ live now (find id m)))
      ⊎ (((get_session (store m) id now).0 ≡ store (remove id m))
          × (served (get_session (store m) id now).1 ≡ live now (find id m))
          × (live now (find id m) ≡ none))
unfolding get_session lookup remove_session
get_session_cases m id now = go (find id m) refl
  where
    go :
        (o : Option Session)
        → find id m ≡ o
        → (((get_session (store m) id now).0 ≡ store m)
            × (served (get_session (store m) id now).1 ≡ live now o))
          ⊎ (((get_session (store m) id now).0 ≡ store (remove id m))
              × (served (get_session (store m) id now).1 ≡ live now o)
              × (live now o ≡ none))
    go none e = inl (rw (e, get_session) refl, rw (e, get_session) refl)
    go (some s) e = elim (Bool-cases (is_expired now s)) [
      | inl old ↦
          inr (rw (e, get_session) (rw old refl), rw (e, get_session) (rw old refl), rw old refl)
      | inr fresh ↦ inl (rw (e, get_session) (rw fresh refl), rw (e, get_session) (rw fresh refl))
    ]

-- `GetSession` serves what the table has, and drops at most what has expired.
get_session-Serves :
    (m : StrMap Session) (clock now : ℕ) (table : String → Option Session) (id : String)
    → clock ≤ now
    → Serves m clock table
    → (m' : StrMap Session) × ((get_session (store m) id now).0 ≡ store m')
      × (served (get_session (store m) id now).1 ≡ live now (table id))
      × Serves m' now table
get_session-Serves m clock now table id o v = elim (get_session_cases m id now) [
  | inl (e, r) ↦ (m, e, r ∙ v now o id, λ t h j. v t (omega arith) j)
  | inr (e, r, old) ↦ (remove id m, e, r ∙ v now o id, expired-Serves m clock now table id o old v)
]

-- The clean-up of an open store.
cleaned :
    (m : StrMap Session) (now : ℕ)
    → (m' : StrMap Session) × (perform_cleanup (store m) now ≡ store m')
unfolding perform_cleanup
cleaned m now = (_, refl)

clean-Serves :
    (m m' : StrMap Session) (clock now : ℕ) (table : String → Option Session)
    → perform_cleanup (store m) now ≡ store m'
    → clock ≤ now
    → Serves m clock table
    → Serves m' now table
unfolding lookup
clean-Serves m m' clock now table e o v t h j =
    let kept : find j m' ≡ live now (find j m) =
      sym (ap (λ s. lookup s j) e) ∙ lookup-perform_cleanup (store m) now j in
    ap (live t) kept ∙ live-live now t (find j m) h ∙ v t (omega arith) j

-- The two ways through `CreateSession` of an open store.
create_session_cases :
    (m : StrMap Session) (id : String) (claims : Claims) (now : ℕ)
    → ((has_expiry claims ≡ false) × (create_session (store m) id claims now ≡ none))
      ⊎ ((has_expiry claims ≡ true)
          × ((s : Session) × (created id claims now ≡ some s)
              × (create_session (store m) id claims now ≡ some (store (put id s m), s))))
unfolding create_session session_of
create_session_cases m id claims now = elim (Option-cases claims.expires_at) [
  | inl gone ↦ inl (ground (arith, gone), ground (arith, gone))
  | inr (expiry, there) ↦ inr (
    ground (arith, there),
    (session_of id claims expiry now, ground (arith, there), ground (arith, there)),
  )
]

-- The answers of a run, and none for a panic.
abbrev Ran : (String → Option Session) → List (Op × ℕ) → Option (List (Option Session)) → Type 0
Ran table ops r = r ≡ (if all_expire ops then some (table_answers table ops) else none)

get_Ran :
    (table : String → Option Session) (id : String) (now : ℕ) (ops : List (Op × ℕ))
    (a : Option Session) {r : Option (List (Option Session))}
    → a ≡ live now (table id)
    → Ran table ops r
    → Ran table ((get id, now) ∷ ops) (elim r [ none ↦ none | some rs ↦ some (a ∷ rs) ])
unfolding table_answers
get_Ran table id now ops a e h = elim (Bool-cases (all_expire ops)) [
  | inl fine ↦ ground (arith, fine, e, h)
  | inr panics ↦ ground (arith, panics, h)
]

run_from :
    (m : StrMap Session) (clock : ℕ) (table : String → Option Session) (ops : List (Op × ℕ))
    → InOrder clock ops
    → Serves m clock table
    → Ran table ops (run (store m) ops)
unfolding run table_answers remove_session
run_from m clock table [] o v = refl
run_from m clock table ((create id claims, now) ∷ ops) (h, o) v =
    elim (create_session_cases m id claims now) [
      | inl (no_expiry, e) ↦ rw (e, run) (rw no_expiry refl)
      | inr (expiry, (s, c, e)) ↦
          rw (e, run)
            (rw expiry (
              rw c (
                run_from (put id s m) now (λ j. if str_eq id j then some s else table j) ops o
                  (put-Serves m clock now table id s h v))))
    ]
run_from m clock table ((get id, now) ∷ ops) (h, o) v =
    let (m', e, r, v') = get_session-Serves m clock now table id h v in
    rw (e, run) (get_Ran table id now ops _ r (run_from m' now table ops o v'))
run_from m clock table ((delete id, now) ∷ ops) (h, o) v =
    run_from (remove id m) now _ ops o (remove-Serves m clock now table id h v)
run_from m clock table ((clean, now) ∷ ops) (h, o) v =
    let (m', e) = cleaned m now in
    rw (e, run) (run_from m' now table ops o (clean-Serves m m' clock now table e h v))

-- With a clock that does not go back, any run of creations, gets, removals and clean-ups on a new
-- store panics exactly if one of the creations has claims with no expiry. Otherwise it serves to
-- each get what was last created under the identifier, unless it has been removed since or has
-- expired: when the clean-up runs, and what `GetSession` itself drops, is never seen.
pub run-create_store :
    (clock : ℕ) (ops : List (Op × ℕ))
    → InOrder clock ops
    → run create_store ops
      ≡ (if all_expire ops then some (table_answers (λ id. none) ops) else none)
unfolding create_store find
run-create_store clock ops o = run_from [] clock (λ id. none) ops o (λ t h j. refl)
