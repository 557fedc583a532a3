-- ===== src/PathMap/History.antt =====
-- Any sequence of calls on the map of path_map.rs.
use unidrive_mount_linux.PathMap.Bijection.{
  IsValid, IsValid-new, intern-IsValid, next-intern, forget-IsValid, next-forget,
}
use unidrive_mount_linux.PathMap.Rename.{rename-IsValid, next-rename}
use unidrive_mount_linux.PathMap.{PathMap, forget, new, intern, rename, inode_for, u64_mod}
use unidrive_mount_linux.Base.{
  ℕ, List, Str, ◌≡◌, ◌≢◌, All, [], ◌+◌, ◌∷◌, ◌++◌, arith, length, ◌<◌, ◌≤◌, none, some, refl,
  list_eq, nat_eq,
}

pub data Call : Type 0 where
  interns forgets : Str → Call
  renames : Str → Str → Call

unfoldable pub call : PathMap → Call → PathMap
call m (interns p) = (intern m p).1
call m (forgets p) = (forget m p).1
call m (renames p q) = rename m p q

unfoldable pub calls : PathMap → List Call → PathMap
calls m [] = m
calls m (c ∷ cs) = calls (call m c) cs

-- The calls of the filesystem name the root in no `forget` and no `rename`.
abbrev pub SparesRoot : Call → Type 0
SparesRoot (interns p) = Unit
SparesRoot (forgets p) = p ≢ []
SparesRoot (renames p q) = (p ≢ []) × (q ≢ [])

call-IsValid :
    (m : PathMap) (c : Call) → IsValid m → SparesRoot c → m.next + 1 < u64_mod → IsValid (call m c)
unfolding call
call-IsValid m (interns p) v s room = intern-IsValid m v p room
call-IsValid m (forgets p) v s room = forget-IsValid m p v s
call-IsValid m (renames p q) v s room = rename-IsValid m p q v s.0 s.1

next-call :
    (m : PathMap) (c : Call) → IsValid m → m.next + 1 < u64_mod → (call m c).next ≤ m.next + 1
unfolding call
next-call m (interns p) v room = next-intern m v p room
next-call m (forgets p) v room = omega (arith, next-forget m p)
next-call m (renames p q) v room = omega (arith, next-rename m p q v)

calls-IsValid_from :
    (cs : List Call) (m : PathMap)
    → IsValid m
    → All SparesRoot cs
    → m.next + length cs < u64_mod
    → IsValid (calls m cs)
unfolding calls
calls-IsValid_from [] m v s room = v
calls-IsValid_from (c ∷ cs) m v (s, ss) room =
    let below : m.next + 1 < u64_mod = omega arith in
    calls-IsValid_from cs (call m c) (call-IsValid m c v s below) ss
      (omega (arith, next-call m c v below))

-- After any calls on a new map that forget and rename no root, fewer than 2^64 - 2 in number, the
-- map is valid: a bijection between paths and inodes, with the root at inode 1 and every inode
-- below the counter.
pub calls-IsValid :
    (cs : List Call) → All SparesRoot cs → length cs + 2 < u64_mod → IsValid (calls new cs)
unfolding new
calls-IsValid cs s room = calls-IsValid_from cs new IsValid-new s (omega arith)

calls-append :
    (m : PathMap) (before after : List Call)
    → calls m (before ++ after) ≡ calls (calls m before) after
unfolding calls
calls-append m [] after = refl
calls-append m (c ∷ before) after = calls-append (call m c) before after

-- The counter never goes back.
next-call_grows :
    (m : PathMap) (c : Call) → IsValid m → m.next + 1 < u64_mod → m.next ≤ (call m c).next
unfolding call intern
next-call_grows m (interns p) v room = ground arith
next-call_grows m (forgets p) v room = omega (arith, next-forget m p)
next-call_grows m (renames p q) v room = omega (arith, next-rename m p q v)

next-calls_grows :
    (cs : List Call) (m : PathMap)
    → IsValid m
    → All SparesRoot cs
    → m.next + length cs < u64_mod
    → m.next ≤ (calls m cs).next
unfolding calls
next-calls_grows [] m v s room = omega arith
next-calls_grows (c ∷ cs) m v (s, ss) room =
    let below : m.next + 1 < u64_mod = omega arith in
    omega (
      arith,
      next-call_grows m c v below,
      next-calls_grows cs (call m c) (call-IsValid m c v s below) ss
          (omega (arith, next-call m c v below)),
    )

next-calls :
    (cs : List Call) (m : PathMap)
    → IsValid m
    → All SparesRoot cs
    → m.next + length cs < u64_mod
    → (calls m cs).next ≤ m.next + length cs
unfolding calls
next-calls [] m v s room = omega arith
next-calls (c ∷ cs) m v (s, ss) room =
    let below : m.next + 1 < u64_mod = omega arith in
    let step = next-call m c v below in
    omega
      (arith, step, next-calls cs (call m c) (call-IsValid m c v s below) ss (omega (arith, step)))

intern_new : (m : PathMap) (path : Str) → inode_for m path ≡ none → (intern m path).0 ≡ m.next
unfolding intern inode_for
intern_new m path e = rw (e, intern) refl

-- After any calls on a new map that forget and rename no root, fewer than 2^64 - 2 in number, a
-- path that has no inode is interned with one that is above every inode that any path had at any
-- moment since the map was new, whatever was forgotten or renamed after it.
pub intern_fresh :
    (before after : List Call) (path q : Str) (i : ℕ)
    → All SparesRoot before
    → All SparesRoot after
    → length before + length after + 2 < u64_mod
    → inode_for (calls new before) q ≡ some i
    → inode_for (calls new (before ++ after)) path ≡ none
    → i < (intern (calls new (before ++ after)) path).0
unfolding new
intern_fresh before after path q i b a room had free =
    let start : new.next ≡ 2 = refl in
    let early = calls-IsValid before b (omega arith) in
    let bound = next-calls before new IsValid-new b (omega arith) in
    let grown = next-calls_grows after (calls new before) early a (omega (arith, bound, start)) in
    let same = calls-append new before after in
    let mine = intern_new (calls new (before ++ after)) path free in
    rw (mine, same) (omega (arith, grown, early.below_next q i had))
