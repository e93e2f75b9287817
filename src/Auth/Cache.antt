-- ===== src/Auth/Cache.antt =====
-- sessions/session-cache.service.ts: what Redis knows of a session, for a while.
use dead_switch.Common.{
  ℕ, ◌+◌, ◌*◌, max, String, true, false, List, [], ◌∷◌, Option, none, some, ltb, str_eq,
  if◌then◌else◌,
}
use dead_switch.World.{CachedSession, Mem}
use dead_switch.Effect.{M, ◌>>=◌, ask, clock, recall, remember, for_each}

-- The entry of the key `dd:sess:<id>` that was set last.
unfoldable pub last_entry : String → List (String × CachedSession) → Option CachedSession
last_entry id [] = none
last_entry id ((k, e) ∷ es) = if str_eq k id then some e else last_entry id es

-- redis.get: an entry is gone when its time is over.
unfoldable pub alive : ℕ → Option CachedSession → Option CachedSession
alive now none = none
alive now (some e) = if ltb now e.until then some e else none

unfoldable pub peek : String → M (Option CachedSession)
unfolding ◌>>=◌ clock recall
peek id = do now ← clock; recall (λ mem. alive now (last_entry id mem.session_cache))

-- redis.set with EX.
unfoldable pub set_entry : String → CachedSession → Mem → Mem
set_entry id e mem = record mem { session_cache = (id, e) ∷ mem.session_cache }

abbrev pub valid_entry : String → String → ℕ → CachedSession
valid_entry user_id family_id until = record {
  user_id = user_id;
  family_id = family_id;
  revoked = false;
  until = until;
}

abbrev pub tombstone : ℕ → CachedSession
tombstone until = record { user_id = ""; family_id = ""; revoked = true; until = until }

unfoldable pub put_valid : String → String → String → M (Unit {0})
unfolding ◌>>=◌ clock ask remember
put_valid id user_id family_id = do
  now ← clock
  ttl ← ask (λ env. env.config.session_cache_ttl)
  remember (set_entry id (valid_entry user_id family_id (now + ttl * 1000)))

unfoldable pub invalidate : String → M (Unit {0})
unfolding ◌>>=◌ clock ask remember
invalidate id = do
  now ← clock
  ttl ← ask (λ env. env.config.session_cache_ttl)
  remember (set_entry id (tombstone (now + max ttl 30 * 1000)))

unfoldable pub invalidate_family : List String → M (Unit {0})
unfolding for_each invalidate
invalidate_family ids = for_each ids invalidate
