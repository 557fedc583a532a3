-- ===== src/ViewRefresh.antt =====
-- mount/src/view_refresh.rs: the change events go through a channel to the cached view. The task at the
-- other end takes the changes in the order in which they were sent.
pub mod Changes
pub mod Unsent
use unidrive_mount_linux.Base.{ℕ, Bool, true, false, Option, none, some, List, [], ◌∷◌, ◌++◌, Str}
use unidrive_mount_linux.Base.Exec.{ok, err}
use unidrive_mount_linux.Fs.{Fs}
use unidrive_mount_linux.Fs.View.{apply}
use unidrive_mount_linux.Ipc.Client.{Link}
use unidrive_mount_linux.Ipc.Client.Handshake.{Secrets}
use unidrive_mount_linux.IpcAuth.{IpcAuth}
use unidrive_mount_linux.Json.{Value}
use unidrive_mount_linux.Subscribe.{SubscriptionEvent, Invalidation, invalidation_of}
use unidrive_mount_linux.Subscribe.Loop.{run_subscription}

-- The callback of `run_subscription`: what is sent, and that more is wanted.
unfoldable pub send_change :
    (Str → Option Value) → SubscriptionEvent → List Invalidation → Bool × List Invalidation
unfolding invalidation_of
send_change parse ev sent =
    (true, elim (invalidation_of parse ev) [ none ↦ sent | some change ↦ sent ++ (change ∷ []) ])

-- The task that applies the changes.
unfoldable pub apply_pending : {F : Type 0} → List Invalidation → Fs F → Fs F
unfolding apply
apply_pending [] fs = fs
apply_pending (change ∷ pending) fs = apply_pending pending (apply change fs)

module _ (l : Link) (x : Secrets l.World) (auth : IpcAuth) (sleep : l.World → l.World) where
  -- `serde_json::from_str(line).ok()`
  unfoldable pub parse_event : Str → Option Value
  parse_event text = elim (l.parse text) [ ok v ↦ some v | err e ↦ none ]

  -- `keep_view_fresh`: whether the subscription has ended, and the changes that it has sent
  unfoldable pub keep_view_fresh : ℕ → l.World → Bool × List Invalidation × l.World
  unfolding run_subscription send_change parse_event
  keep_view_fresh f w = run_subscription l x auth sleep (send_change parse_event) f false [] w
