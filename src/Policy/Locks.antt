-- ===== src/Policy/Locks.antt =====
-- src/yunohost_mcp/policy/locks.py: WriteLock, one lock for all writes, which is not waited for.
use yunohost_mcp.Prelude.{Bool, true, false, Option, none, some, if◌then◌else◌}

pub record WriteLock : Type 0 where
  pub held : Bool

-- WriteLock()
abbrev pub new_lock : WriteLock
new_lock = record { held = false }

-- acquire(blocking=False)
abbrev pub acquire : WriteLock → Option WriteLock
acquire l = if l.held then none else some (record { held = true })

-- release()
abbrev pub release : WriteLock → WriteLock
release l = record { held = false }
