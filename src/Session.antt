-- ===== src/Session.antt =====
-- The in-memory session store: services/gateway/internal/session/memory_manager.go, with `Session`
-- of manager.go. Sessions are pointers in Go and values here, but that `touch` writes through a
-- pointer which the map holds. The identifier that `CreateSession` draws at random comes in as an
-- argument, and each operation reads the clock once.
pub mod Cleanup
pub mod Refinement
pub mod Update
mod Examples
use mcp_bridge.Prelude.{
  ℕ, Bool, true, false, Option, none, some, List, [], ◌∷◌, ltb, if◌then◌else◌, String, StrMap, find,
  put, remove, Result, ok, err,
}
use mcp_bridge.RateLimit.{RateLimitConfig}

pub record Session : Type 0 where
  pub id : String
  pub user : String
  pub created_at : ℕ
  pub updated_at : ℕ
  pub expires_at : ℕ
  pub scopes : List String
  pub metadata : StrMap String
  pub rate_limit : RateLimitConfig

-- What `CreateSession` reads of `auth.Claims`.
pub record Claims : Type 0 where
  pub subject : String
  pub expires_at : Option ℕ  -- a pointer, which may be nil
  pub scopes : List String
  pub rate_limit : RateLimitConfig

pub data SessionError : Type 0 where
  session_not_found : String → SessionError
  session_expired : String → ℕ → SessionError

-- The map of sessions, which `Close` sets to nil: `none`.
pub record MemoryManager : Type 0 where
  pub sessions : Option (StrMap Session)

unfoldable pub create_store : MemoryManager
create_store = record { sessions = some [] }

-- Reading a nil map finds nothing.
unfoldable pub lookup : MemoryManager → String → Option Session
lookup m id = elim m.sessions [ none ↦ none | some sessions ↦ find id sessions ]

-- `now.After(session.ExpiresAt)`
abbrev pub is_expired : ℕ → Session → Bool
is_expired now s = ltb s.expires_at now

-- The session that is made of claims with an expiry.
unfoldable pub session_of : String → Claims → ℕ → ℕ → Session
session_of id claims expiry now = record {
  id = id;
  user = claims.subject;
  created_at = now;
  updated_at = now;
  expires_at = expiry;
  scopes = claims.scopes;
  metadata = [];
  rate_limit = claims.rate_limit;
}

-- The write to the map; `none` is the panic of writing to a nil map.
unfoldable pub add_session : MemoryManager → Session → Option (MemoryManager × Session)
add_session m s = elim m.sessions [
  | none ↦ none
  | some sessions ↦ some (record { sessions = some (put s.id s sessions) }, s)
]

-- `CreateSession`; `none` is a panic, also that of `claims.ExpiresAt.Time` at a nil pointer.
unfoldable pub create_session :
    MemoryManager → String → Claims → ℕ → Option (MemoryManager × Session)
unfolding session_of add_session
create_session m id claims now = elim claims.expires_at [
  | none ↦ none
  | some expiry ↦ add_session m (session_of id claims expiry now)
]

-- Deleting from a nil map does nothing.
unfoldable pub remove_session : MemoryManager → String → MemoryManager
remove_session m id = elim m.sessions [
  | none ↦ m
  | some sessions ↦ record { sessions = some (remove id sessions) }
]

-- `GetSession` with no other goroutine between its two critical sections.
unfoldable pub get_session :
    MemoryManager → String → ℕ → MemoryManager × Result SessionError Session
unfolding lookup remove_session
get_session m id now = elim (lookup m id) [
  | none ↦ (m, err (session_not_found id))
  | some s ↦
      if is_expired now s
      then (remove_session m id, err (session_expired s.id s.expires_at))
      else (m, ok s)
]

-- The write of `UpdateSession`, if the session is there.
unfoldable pub store_if_known :
    MemoryManager → Session → MemoryManager × Result SessionError Session
store_if_known m s = elim m.sessions [
  | none ↦ (m, err (session_not_found s.id))
  | some sessions ↦ elim (find s.id sessions) [
    | none ↦ (m, err (session_not_found s.id))
    | some old ↦ (record { sessions = some (put s.id s sessions) }, ok s)
  ]
]

-- A write to `UpdatedAt` of the session passed. Where it is the object that the map holds under its
-- identifier, as `GetSession` and `CreateSession` return it, the map sees the write.
unfoldable pub touch : MemoryManager → Bool → Session → MemoryManager
touch m false s = m
touch m true s = elim m.sessions [
  | none ↦ m
  | some sessions ↦ elim (find s.id sessions) [
    | none ↦ m
    | some held ↦ record {
      sessions = some (put s.id (record held { updated_at = s.updated_at }) sessions);
    }
  ]
]

-- `UpdateSession`, with the session as it is then; `shared` tells whether it is the object held.
unfoldable pub update_session :
    MemoryManager → Bool → Session → ℕ → MemoryManager × Result SessionError Session
unfolding touch store_if_known
update_session m shared s now =
    let s' = record s { updated_at = now } in
    if is_expired now s'
    then (touch m shared s', err (session_expired s.id s.expires_at))
    else store_if_known (touch m shared s') s'

unfoldable pub keys : StrMap Session → List String
keys [] = []
keys ((id, s) ∷ m) = id ∷ keys m

-- The loop of `performCleanup` over the keys of the map: each with its value there.
unfoldable pub clean_keys : List String → ℕ → StrMap Session → StrMap Session
clean_keys [] now m = m
clean_keys (id ∷ ids) now m =
    clean_keys ids now
      (elim (find id m) [ none ↦ m | some s ↦ if is_expired now s then remove id m else m ])

unfoldable pub perform_cleanup : MemoryManager → ℕ → MemoryManager
unfolding clean_keys keys
perform_cleanup m now = elim m.sessions [
  | none ↦ m
  | some sessions ↦ record { sessions = some (clean_keys (keys sessions) now sessions) }
]

-- The end of `Close`, once the clean-up goroutine has stopped.
unfoldable pub close : MemoryManager → MemoryManager
close m = record { sessions = none }
